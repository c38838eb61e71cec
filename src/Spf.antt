-- ===== src/Spf.antt =====
-- internal/probe/spf/spf.go: the SPF record at the apex.
pub mod Record
pub mod Terms
pub mod Verdict
use mailsec_probe.Common.{
  length, take, drop, ltb, ◌==◌, if◌then◌else◌, ℕ, Bool, true, false, not, ◌||◌, Option, none, some,
  List, [], ◌∷◌, ◌++◌,
}
use mailsec_probe.DnsClient.{TxtResult, Client}
use mailsec_probe.Signals.{
  Status, present, absent, unknown, misconfigured, dns_txt, Signal, Feature, lookup_signal, feature,
}
use mailsec_probe.Text.{
  Bytes, codes, str_eq, trim_space, to_lower, equal_fold, has_prefix, fields, join, decimal,
}

pub data Qualifier : Type 0 where
  fail softfail neutral pass missing : Qualifier

abbrev qualifier_text : Qualifier → Bytes
qualifier_text fail = codes "fail"
qualifier_text softfail = codes "softfail"
qualifier_text neutral = codes "neutral"
qualifier_text pass = codes "pass"
qualifier_text missing = codes "missing"

pub record Details : Type 0 where
  pub qualifier : Qualifier
  pub includes : List Bytes
  pub redirect : Bytes
  pub mechanisms : List Bytes
  pub raw : Bytes

pub record Probe : Type 0 where
  pub dns : Client
  pub include_raw : Bool

abbrev source_part : Bytes → List Bytes → List Bytes
source_part (c ∷ redirect) includes = (codes "redirect=" ++ c ∷ redirect) ∷ []
source_part [] [] = []
source_part [] (i ∷ []) = (codes "include=" ++ i) ∷ []
source_part [] (i ∷ j ∷ is) = (decimal (length (i ∷ j ∷ is)) ++ codes " includes") ∷ []

pub summary : Details → Bytes
unfolding decimal join
summary d =
    join ((codes "qualifier=" ++ qualifier_text d.qualifier) ∷ source_part d.redirect d.includes)
      (codes ", ")

-- The byte behind the version, if there is one, is a blank.
abbrev pub blank_next : Bytes → Bool
blank_next [] = true
blank_next (c ∷ s) = c == b' ' || c == b'\t'

unfoldable pub is_spf : Bytes → Bool
unfolding trim_space equal_fold
is_spf r =
    let t = trim_space r in
    if ltb (length t) 6
    then false
    else if not (equal_fold (take 6 t) (codes "v=spf1"))
    then false
    else blank_next (drop 6 t)

unfoldable pub pick_spf_records : List Bytes → List Bytes
unfolding is_spf
pick_spf_records [] = []
pick_spf_records (r ∷ records) =
    if is_spf r then r ∷ pick_spf_records records else pick_spf_records records

abbrev no_details : Details
no_details = record { qualifier = missing; includes = []; redirect = []; mechanisms = []; raw = [] }

-- The switch on a token's lower-case form.
pub classify : Details → Bytes → Bytes → Details
unfolding has_prefix str_eq
classify d tok lower =
    if has_prefix lower (codes "include:")
    then record d { includes = d.includes ++ drop 8 tok ∷ [] }
    else if has_prefix lower (codes "redirect=")
    then record d { redirect = drop 9 tok }
    else if str_eq lower (codes "-all")
    then record d { qualifier = fail }
    else if str_eq lower (codes "~all")
    then record d { qualifier = softfail }
    else if str_eq lower (codes "?all")
    then record d { qualifier = neutral }
    else if str_eq lower (codes "+all") || str_eq lower (codes "all")
    then record d { qualifier = pass }
    else d

-- One round of the loop over the tokens.
pub parse_token : Details → Bytes → Details
unfolding equal_fold to_lower classify
parse_token d tok =
    if equal_fold tok (codes "v=spf1")
    then d
    else classify (record d { mechanisms = d.mechanisms ++ tok ∷ [] }) tok (to_lower tok)

pub parse_tokens : Details → List Bytes → Details
unfolding parse_token
parse_tokens d [] = d
parse_tokens d (tok ∷ toks) = parse_tokens (parse_token d tok) toks

unfoldable pub parse_spf : Bytes → Details
unfolding parse_tokens fields
parse_spf raw = parse_tokens no_details (fields raw)

abbrev spf_feature : Status → ℕ → List Bytes → Option Details → Signal → Feature Details
spf_feature status confidence reasons details sig =
    feature (codes "spf") status confidence reasons details (sig ∷ [])

-- The switch on the qualifier: the status, and the reasons behind the first one.
abbrev judge : Qualifier → Bytes → Status × List Bytes
judge pass redirect = (misconfigured, codes "+all permits any sender (no real protection)" ∷ [])
judge missing [] = (misconfigured, codes "no 'all' mechanism and no redirect modifier" ∷ [])
judge missing (c ∷ redirect) =
    (present, (codes "policy delegated via redirect=" ++ c ∷ redirect) ∷ [])
judge _ redirect = (present, [])

abbrev judged : Details → Status × List Bytes → Signal → Feature Details
judged d (status, reasons) sig =
    spf_feature status 95 ((codes "qualifier=" ++ qualifier_text d.qualifier) ∷ reasons) (some d)
      sig

abbrev one_record : Bool → Bytes → Signal → Feature Details
one_record include_raw raw sig =
    let parsed = parse_spf raw in
    let d = record parsed { raw = if include_raw then raw else parsed.raw } in
    judged d (judge d.qualifier d.redirect) sig

-- The switch on the number of SPF records.
abbrev count_records : Bool → List Bytes → Signal → Feature Details
count_records include_raw [] sig =
    spf_feature absent 95 (codes "no v=spf1 TXT at apex" ∷ []) none sig
count_records include_raw (raw ∷ []) sig = one_record include_raw raw sig
count_records include_raw (r ∷ q ∷ rs) sig =
    spf_feature misconfigured 95
      ((codes "multiple v=spf1 records ("
          ++ (decimal (length (r ∷ q ∷ rs)) ++ codes ") - RFC 7208 PermError"))
        ∷ [])
      none sig

abbrev observe : Bool → Bytes → TxtResult × Option Bytes → Feature Details
observe include_raw domain (res, some e) =
    spf_feature unknown 0 ((codes "SPF TXT lookup failed: " ++ e) ∷ []) none
      (lookup_signal dns_txt domain (some e) [])
observe include_raw domain (res, none) =
    count_records include_raw (pick_spf_records res.records)
      (lookup_signal dns_txt domain none res.records)

unfoldable pub run_one : Probe → Bytes → Feature Details
unfolding parse_spf pick_spf_records decimal
run_one p domain = observe p.include_raw domain (p.dns.lookup_txt domain)
