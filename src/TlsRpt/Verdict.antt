-- ===== src/TlsRpt/Verdict.antt =====
-- `runOne` of internal/probe/tlsrpt/tlsrpt.go, for every answer of the DNS.
use mailsec_probe.TlsRpt.{Probe, run_one, on_pick}
use mailsec_probe.TxtTag.Required.{expected, IsVerdict, expected-IsVerdict}
use mailsec_probe.Signals.{Signal}
use mailsec_probe.DnsClient.{TxtResult}
use mailsec_probe.Text.{Bytes, codes}
use mailsec_probe.TxtTag.{Pair}
use mailsec_probe.Common.{◌≡◌, refl, Bool, Option, none, some, List, ◌++◌, arith}

on_pick-status :
    (include_raw : Bool) (target : Bytes) (found : Option (Bytes × List Pair)) (sig : Signal)
    → (on_pick include_raw target found sig).status ≡ expected (codes "rua") found
on_pick-status include_raw target none sig = refl
on_pick-status include_raw target (some (raw, pairs)) sig = ground arith

-- The three verdicts of TLS-RPT on an answer of the DNS. Absent: no record declares TLSRPTv1.
-- Misconfigured: the first record that declares it names no place for reports. Present: it names one.
pub run_one-tlsrpt-IsVerdict :
    (p : Probe) (domain : Bytes) (res : TxtResult)
    → p.dns.lookup_txt (codes "_smtp._tls." ++ domain) ≡ (res, none)
    → IsVerdict res.records (codes "TLSRPTv1") (codes "rua") (run_one p domain).status
unfolding run_one
run_one-tlsrpt-IsVerdict p domain res answer =
    rw (answer, on_pick-status p.include_raw)
      (expected-IsVerdict res.records (codes "TLSRPTv1") (codes "rua"))
