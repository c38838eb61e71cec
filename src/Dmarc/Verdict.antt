-- ===== src/Dmarc/Verdict.antt =====
-- `runOne` of internal/probe/dmarc/dmarc.go, for every answer of the DNS.
use mailsec_probe.Dmarc.{Probe, run_one, judge, on_pick}
use mailsec_probe.TxtTag.Required.{expected, IsVerdict, expected-IsVerdict}
use mailsec_probe.Signals.{present, misconfigured, Signal}
use mailsec_probe.Common.{if◌then◌else◌, ◌≡◌, refl, Option, none, some, List, [], ◌∷◌, ◌++◌, arith}
use mailsec_probe.DnsClient.{TxtResult}
use mailsec_probe.Text.{Bytes, codes, is_empty}
use mailsec_probe.TxtTag.{Pair, get}

judge-status :
    (policy : Bytes) → (judge policy).0 ≡ (if is_empty policy then misconfigured else present)
unfolding judge
judge-status [] = refl
judge-status (c ∷ policy) = ground arith

on_pick-status :
    (p : Probe) (target : Bytes) (found : Option (Bytes × List Pair)) (sig : Signal)
    → (on_pick p target found sig).status ≡ expected (codes "p") found
on_pick-status p target none sig = refl
on_pick-status p target (some (raw, pairs)) sig = judge-status (get pairs (codes "p"))

-- The three verdicts of DMARC on an answer of the DNS. Absent: no record declares DMARC1.
-- Misconfigured: the first record that declares it has an empty policy, or none. Present: that
-- record has a policy.
pub run_one-dmarc-IsVerdict :
    (p : Probe) (domain : Bytes) (res : TxtResult)
    → p.dns.lookup_txt (codes "_dmarc." ++ domain) ≡ (res, none)
    → IsVerdict res.records (codes "DMARC1") (codes "p") (run_one p domain).status
unfolding run_one
run_one-dmarc-IsVerdict p domain res answer =
    rw (answer, on_pick-status p) (expected-IsVerdict res.records (codes "DMARC1") (codes "p"))
