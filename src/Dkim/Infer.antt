-- ===== src/Dkim/Infer.antt =====
-- internal/probe/dkim/inference.go: selectors that the SPF record of the domain suggests. The YAML
-- document of the rules is read by a package outside the repository: the rules are an argument.
pub mod Suggested
pub mod Terms
use mailsec_probe.Common.{
  length, take, drop, ltb, if◌then◌else◌, Bool, true, false, ◌&&◌, ◌||◌, Option, none, some, List,
  [], ◌∷◌, ◌++◌,
}
use mailsec_probe.Dedupe.{dedupe_by}
use mailsec_probe.DnsClient.{TxtResult, Client}
use mailsec_probe.Spf.{blank_next}
use mailsec_probe.Text.{
  Bytes, codes, is_empty, trim_space, to_lower, equal_fold, has_prefix, contains, fields,
}

pub record InferenceRule : Type 0 where
  pub match_include : Bytes
  pub add_selectors : List Bytes

abbrev begins_spf : Bytes → Bool
begins_spf t =
    if ltb (length t) 6
    then false
    else equal_fold (take 6 t) (codes "v=spf1") && blank_next (drop 6 t)

-- The first loop: the first record that is SPF, trimmed; "" if there is none.
first_spf : List Bytes → Bytes
unfolding trim_space equal_fold
first_spf [] = []
first_spf (r ∷ records) =
    let rest = first_spf records in let t = trim_space r in if begins_spf t then t else rest

-- The second loop: what one token appends.
abbrev target_of : Bytes → List Bytes
target_of lower =
    if has_prefix lower (codes "include:")
    then drop 8 lower ∷ []
    else if has_prefix lower (codes "redirect=")
    then drop 9 lower ∷ []
    else []

pub targets_of : List Bytes → List Bytes
unfolding has_prefix to_lower
targets_of [] = []
targets_of (tok ∷ toks) = target_of (to_lower tok) ++ targets_of toks

abbrev any_contains : List Bytes → Bytes → Bool
any_contains [] needle = false
any_contains (t ∷ ts) needle = contains t needle || any_contains ts needle

-- The selectors of the rules that match, before they are cleaned.
pub suggested : List Bytes → List InferenceRule → List Bytes
unfolding contains to_lower
suggested targets [] = []
suggested targets (rule ∷ rules) =
    if any_contains targets (to_lower rule.match_include)
    then rule.add_selectors ++ suggested targets rules
    else suggested targets rules

abbrev is_none : List Bytes → Bool
is_none [] = true
is_none (t ∷ ts) = false

-- The three exits with no target lead to no selector.
abbrev infer_from : List Bytes → List InferenceRule → List Bytes
infer_from records rules =
    let spf = first_spf records in
    let targets = targets_of (fields spf) in
    if is_empty spf || is_none targets then [] else dedupe_by trim_space (suggested targets rules)

abbrev on_answer : List InferenceRule → TxtResult × Option Bytes → List Bytes
on_answer rules (res, some e) = []
on_answer rules (res, none) = infer_from res.records rules

unfoldable pub infer_selectors_from_spf : Client → Bytes → List InferenceRule → List Bytes
unfolding first_spf targets_of suggested fields dedupe_by trim_space
infer_selectors_from_spf dns domain [] = []
infer_selectors_from_spf dns domain (r ∷ rules) = on_answer (r ∷ rules) (dns.lookup_txt domain)
