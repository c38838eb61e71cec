-- ===== src/Tests/Mail.antt =====
-- The theorems on MX and MTA-STS, at concrete answers.
use mailsec_probe.Common.{All, keep, ◌≡◌, refl, ◌↔◌, ◌⊎◌, true, false, not, some, List, [], ◌∷◌}
use mailsec_probe.DnsClient.{MxRecord, MxResult}
use mailsec_probe.MtaSts.{match_pattern, compare_mx_against_policy}
use mailsec_probe.MtaSts.Compare.{Covered, is_covered, compare_mx_against_policy_lem}
use mailsec_probe.MtaSts.Pattern.{Matches, match_pattern_iff}
use mailsec_probe.MtaSts.Verdict.{IsDeployed, run_one-IsDeployed, marker_name, policy_url}
use mailsec_probe.Mx.{Host}
use mailsec_probe.Mx.Order.{IsReport, run_one-IsReport, IsNull, run_one-IsNull}
use mailsec_probe.Signals.{present, absent}
use mailsec_probe.Text.{Bytes, codes}
use mailsec_probe.Tests.{answering, silent_client, example_domain, fetcher_with}
use mailsec_probe.MtaSts.Missing.{NoMarker, NoPolicy, run_one-NoPolicy}

abbrev mx_answer_of : MxResult
mx_answer_of = ((answering []).lookup_mx example_domain).0

run_one-IsReport_example :
    (hosts : List Host) × ((mailsec_probe.Mx.run_one
        (record { dns = answering [] })
        example_domain).details
      ≡ some (record { hosts = hosts }))
    × IsReport mx_answer_of hosts
run_one-IsReport_example =
    run_one-IsReport (record { dns = answering [] }) example_domain mx_answer_of refl

run_one-IsNull_example :
    ((mailsec_probe.Mx.run_one (record { dns = silent_client }) example_domain).status ≡ absent)
    ↔ ((◌≡◌ {A = List MxRecord} [] []) ⊎ IsNull [])
run_one-IsNull_example =
    run_one-IsNull (record { dns = silent_client }) example_domain
      (record { records = []; ad = false; rcode = 0 }) refl

match_pattern_iff_example :
    (match_pattern (codes "mx1.example.com") (codes "*.example.com") ≡ true)
    ↔ Matches (codes "mx1.example.com") (codes "*.example.com")
match_pattern_iff_example = match_pattern_iff (codes "mx1.example.com") (codes "*.example.com")

abbrev patterns : List Bytes
patterns = codes "*.Example.com" ∷ codes "mx.example.net" ∷ []

abbrev mx_names : List Bytes
mx_names = codes "mx1.example.com." ∷ codes "a.b.example.com" ∷ []

compare_mx_against_policy_example :
    (((compare_mx_against_policy mx_names patterns).all_matched ≡ true)
      ↔ All (Covered patterns) mx_names)
    × ((compare_mx_against_policy mx_names patterns).unmatched
        ≡ keep (λ h. not (is_covered patterns h)) mx_names)
compare_mx_against_policy_example = compare_mx_against_policy_lem mx_names patterns

abbrev sts_probe : mailsec_probe.MtaSts.Probe
sts_probe = record {
  dns = answering (codes "v=STSv1; id=1" ∷ []);
  http = fetcher_with (codes "version: STSv1\nmode: enforce\nmx: *.example.com\nmax_age: 86400\n");
  include_raw = false;
}

run_one-IsDeployed_example :
    ((mailsec_probe.MtaSts.run_one sts_probe example_domain).status ≡ present)
    ↔ IsDeployed sts_probe example_domain
run_one-IsDeployed_example = run_one-IsDeployed sts_probe example_domain

run_one-NoPolicy_example :
    ((mailsec_probe.MtaSts.run_one sts_probe example_domain).status ≡ absent) ↔ (
      NoMarker (sts_probe.dns.lookup_txt (marker_name example_domain))
      × NoPolicy (sts_probe.http.get (policy_url example_domain)))
run_one-NoPolicy_example = run_one-NoPolicy sts_probe example_domain
