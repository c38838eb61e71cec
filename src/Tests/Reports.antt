-- ===== src/Tests/Reports.antt =====
-- The theorems on DMARC, TLS-RPT and BIMI, at concrete answers.
use mailsec_probe.Bimi.Verdict.{run_one-bimi_verdict}
use mailsec_probe.Common.{All, ◌≡◌, refl, ◌↔◌, true, false, none, some, List, [], ◌∷◌}
use mailsec_probe.Dmarc.{check_rua_reachability}
use mailsec_probe.Dmarc.Reports.{IsChecked, check_rua_reachability-IsChecked}
use mailsec_probe.Dmarc.Verdict.{run_one-dmarc-IsVerdict}
use mailsec_probe.Signals.{present, absent}
use mailsec_probe.Text.{Bytes, codes}
use mailsec_probe.TlsRpt.Verdict.{run_one-tlsrpt-IsVerdict}
use mailsec_probe.TxtTag.{Pair}
use mailsec_probe.TxtTag.Required.{IsVerdict}
use mailsec_probe.TxtTag.Select.{Declares, IsPick}
use mailsec_probe.Tests.{answering, example_domain, answer_of, fetcher_with}

abbrev dmarc_records : List Bytes
dmarc_records = codes "v=DMARC1; p=reject; rua=mailto:r@example.com" ∷ []

abbrev dmarc_probe : mailsec_probe.Dmarc.Probe
dmarc_probe = record {
  dns = answering dmarc_records;
  http = none;
  include_raw = false;
  enable_rua_check = true;
}

run_one-dmarc-IsVerdict_example :
    IsVerdict dmarc_records
      (codes "DMARC1")
      (codes "p")
      (mailsec_probe.Dmarc.run_one dmarc_probe example_domain).status
run_one-dmarc-IsVerdict_example =
    run_one-dmarc-IsVerdict dmarc_probe example_domain (answer_of dmarc_records) refl

check_rua_reachability-IsChecked_example : All (IsChecked (some (fetcher_with [])) true) (
    check_rua_reachability
      (codes "mailto:r@example.com, https://r.example.com/in")
      (some (fetcher_with []))
      true)
check_rua_reachability-IsChecked_example =
    check_rua_reachability-IsChecked (codes "mailto:r@example.com, https://r.example.com/in")
      (some (fetcher_with [])) true

abbrev tlsrpt_probe : mailsec_probe.TlsRpt.Probe
tlsrpt_probe = record { dns = answering (codes "v=TLSRPTv1; rua=" ∷ []); include_raw = false }

run_one-tlsrpt-IsVerdict_example :
    IsVerdict
      (codes "v=TLSRPTv1; rua=" ∷ [])
      (codes "TLSRPTv1")
      (codes "rua")
      (mailsec_probe.TlsRpt.run_one tlsrpt_probe example_domain).status
run_one-tlsrpt-IsVerdict_example =
    run_one-tlsrpt-IsVerdict tlsrpt_probe example_domain (answer_of (codes "v=TLSRPTv1; rua=" ∷ []))
      refl

abbrev bimi_probe : mailsec_probe.Bimi.Probe
bimi_probe = record {
  dns = answering (codes "v=BIMI1; l=" ∷ []);
  selector = [];
  include_raw = false;
}

run_one-bimi_verdict_example :
    (((mailsec_probe.Bimi.run_one bimi_probe example_domain).status ≡ present) ↔ (
      (raw : Bytes) × (ps : List Pair) × IsPick (codes "v=BIMI1; l=" ∷ []) (codes "BIMI1") raw ps))
    × (((mailsec_probe.Bimi.run_one bimi_probe example_domain).status ≡ absent)
        ↔ All (λ r. ¬ Declares (codes "BIMI1") r) (codes "v=BIMI1; l=" ∷ []))
run_one-bimi_verdict_example =
    run_one-bimi_verdict bimi_probe example_domain (answer_of (codes "v=BIMI1; l=" ∷ [])) refl
