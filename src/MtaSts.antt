-- ===== src/MtaSts.antt =====
-- internal/probe/mtasts/mtasts.go: the MTA-STS marker, the HTTPS policy and the verdict. `parsePolicy`
-- and the MX comparison stand in two children.
pub mod Hosts
pub mod Document
pub mod Pattern
pub mod Compare
pub mod Verdict
pub mod Uncovered
pub mod Missing
pub use Hosts.{MxMatch, fresh_match}
unfoldable pub use Hosts.{
  match_pattern, match_any_pattern, normalise, compare_hosts, compare_mx_against_policy,
}
pub use Document.{Policy, no_policy}
unfoldable pub use Document.{parse_policy}
use mailsec_probe.Common.{
  length, ltb, ◌==◌, if◌then◌else◌, ℕ, Bool, true, false, not, ◌&&◌, ◌||◌, Option, none, some, List,
  [], ◌∷◌, ◌++◌, map,
}
use mailsec_probe.DnsClient.{TxtResult, MxResult, Client}
use mailsec_probe.HttpFetcher.{Fetcher}
use mailsec_probe.Signals.{
  Status, present, absent, misconfigured, dns_txt, dns_mx, https_get, Signal, Feature, is_nil,
  error_text, lookup_signal, feature,
}
use mailsec_probe.Text.{Bytes, codes, str_eq, is_empty, join, decimal}
use mailsec_probe.TxtTag.{get, pick_by_version, Pair}

-- `dns_id` and `dns_raw` are the fields of the anonymous struct `DNSRecord`.
pub record Details : Type 0 where
  pub dns_id : Bytes
  pub dns_raw : Bytes
  pub http_status : ℕ
  pub policy : Policy
  pub mx_match : Option MxMatch

pub record Probe : Type 0 where
  pub dns : Client
  pub http : Fetcher
  pub include_raw : Bool

abbrev part_if : Bool → Bytes → List Bytes
part_if true part = part ∷ []
part_if false part = []

pub summary : Details → Bytes
unfolding join decimal
summary d =
    join
      (part_if (not (is_empty d.policy.mode)) (codes "mode=" ++ d.policy.mode)
        ++ (part_if (not (is_empty d.policy.max_age)) (codes "max_age=" ++ d.policy.max_age)
            ++ (part_if (ltb 0 (length d.policy.mx))
                  (decimal (length d.policy.mx) ++ codes " mx pattern(s)")
                ++ part_if (not (d.http_status == 0) && not (d.http_status == 200))
                    (codes "HTTP " ++ decimal d.http_status))))
      (codes ", ")

abbrev marker_of : Bool → Option (Bytes × List Pair) → Option (Bytes × Bytes)
marker_of include_raw none = none
marker_of include_raw (some (raw, pairs)) =
    some (get pairs (codes "id"), (if include_raw then raw else []))

abbrev dns_half : Bool → TxtResult × Option Bytes → Option (Bytes × Bytes)
dns_half include_raw (res, some e) = none
dns_half include_raw (res, none) =
    marker_of include_raw (pick_by_version res.records (codes "STSv1"))

abbrev dns_signal : Bytes → TxtResult × Option Bytes → Signal
dns_signal target (res, some e) = lookup_signal dns_txt target (some e) []
dns_signal target (res, none) = lookup_signal dns_txt target none res.records

-- Step 2: the policy, if the response is a success.
abbrev http_half : Bool → ℕ × Bytes × Option Bytes → Option Policy
http_half include_raw (status, body, some e) = none
http_half include_raw (status, body, none) =
    let policy = parse_policy body in
    if status == 200 then some (record policy { raw = if include_raw then body else [] }) else none

abbrev http_signal : Bytes → ℕ × Bytes × Option Bytes → Signal
http_signal target (status, body, e) = record {
  source = https_get;
  target = target;
  ok = is_nil e && status == 200;
  records = [];
  meta = if ltb 0 status then (codes "status", decimal status) ∷ [] else [];
  err = error_text e;
}

abbrev policy_present : Option Policy → Bool
policy_present none = false
policy_present (some policy) = not (is_empty policy.mode) || not (is_empty policy.version)

abbrev policy_or_empty : Option Policy → Policy
policy_or_empty none = no_policy
policy_or_empty (some policy) = policy

abbrev is_some : Option (Bytes × Bytes) → Bool
is_some none = false
is_some (some r) = true

-- Step 3: the comparison of the MX hosts with the patterns of the policy.
abbrev mx_check : Bytes → List Bytes → MxResult × Option Bytes → Option MxMatch × List Signal
mx_check domain patterns (res, some e) = (none, lookup_signal dns_mx domain (some e) [] ∷ [])
mx_check domain patterns (res, none) =
    let matched = compare_mx_against_policy (map (λ m. m.host) res.records) patterns in
    (
      (if ltb 0 (length res.records) then some (record matched { checked = true }) else none),
      lookup_signal dns_mx domain none [] ∷ [],
    )

abbrev mx_half : Client → Bytes → Bool → List Bytes → Option MxMatch × List Signal
mx_half dns domain both patterns =
    if both && ltb 0 (length patterns)
    then mx_check domain patterns (dns.lookup_mx domain)
    else (none, [])

abbrev mode_reason : Bytes → Bytes
mode_reason mode = codes "mode=" ++ (if is_empty mode then codes "(unspecified)" else mode)

abbrev sts_feature : Status → ℕ → List Bytes → Details → List Signal → Feature Details
sts_feature status confidence reasons d sigs =
    feature (codes "mta-sts") status confidence reasons (some d) sigs

abbrev uncovered : Option MxMatch → Bool
uncovered none = false
uncovered (some m) = m.checked && not m.all_matched

abbrev unmatched_hosts : Option MxMatch → List Bytes
unmatched_hosts none = []
unmatched_hosts (some m) = m.unmatched

-- Step 4: the verdict, from the two flags.
abbrev decide : Bool → Bool → Details → List Signal → Feature Details
decide true true d sigs =
    let mode_none = str_eq d.policy.mode (codes "none") in
    let bad = uncovered d.mx_match in
    let reasons =
      codes "TXT _mta-sts present"
      ∷ codes "HTTPS policy present"
      ∷ mode_reason d.policy.mode
      ∷ (part_if mode_none (codes "policy mode=none (advertised but not enforced)")
          ++ part_if bad (
              codes "MX host(s) not covered by policy patterns: "
              ++ join (unmatched_hosts d.mx_match) (codes ", "))) in
    sts_feature (if mode_none || bad then misconfigured else present) 95 reasons d sigs
decide true false d sigs =
    sts_feature misconfigured 85 (codes "_mta-sts TXT advertised but HTTPS policy missing" ∷ []) d
      sigs
decide false true d sigs =
    sts_feature misconfigured 60 (codes "HTTPS policy present but no _mta-sts TXT" ∷ []) d sigs
decide false false d sigs =
    sts_feature absent 90 (codes "no _mta-sts TXT and no HTTPS policy" ∷ []) d sigs

abbrev record_field : (Bytes × Bytes → Bytes) → Option (Bytes × Bytes) → Bytes
record_field f none = []
record_field f (some r) = f r

abbrev assemble :
    Probe
    → Bytes
    → Bytes
    → TxtResult × Option Bytes
    → Bytes
    → ℕ × Bytes × Option Bytes
    → Feature Details
assemble p domain dns_target txt url response =
    let marker = dns_half p.include_raw txt in
    let fetched = http_half p.include_raw response in
    let policy = policy_or_empty fetched in
    let both = is_some marker && policy_present fetched in
    let checked = mx_half p.dns domain both policy.mx in
    let d : Details = record {
      dns_id = record_field (λ r. r.0) marker;
      dns_raw = record_field (λ r. r.1) marker;
      http_status = response.0;
      policy = policy;
      mx_match = checked.0;
    } in
    decide (is_some marker) (policy_present fetched) d
      (dns_signal dns_target txt ∷ http_signal url response ∷ checked.1)

unfoldable pub run_one : Probe → Bytes → Feature Details
unfolding pick_by_version get parse_policy compare_mx_against_policy decimal join str_eq
run_one p domain =
    let target = codes "_mta-sts." ++ domain in
    let url = codes "https://mta-sts." ++ (domain ++ codes "/.well-known/mta-sts.txt") in
    assemble p domain target (p.dns.lookup_txt target) url (p.http.get url)
