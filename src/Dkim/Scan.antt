-- ===== src/Dkim/Scan.antt =====
-- `runOne` of internal/probe/dkim/dkim.go: the lookups of all selectors and the verdict. The
-- goroutines write each to its own place of `results`, so the result is that of the lookups in the
-- order of the selectors.
pub mod Verdict
pub mod Live
pub mod Named
pub mod Candidates
pub mod KeyRecord
use mailsec_probe.Common.{
  length, ltb, leb, ◌==◌, if◌then◌else◌, ℕ, suc, ◌/◌, Bool, false, not, ◌&&◌, ◌||◌, Option, none,
  some, List, [], ◌∷◌, ◌++◌, map,
}
use mailsec_probe.Dedupe.{dedupe_by}
use mailsec_probe.Dkim.Infer.{InferenceRule, infer_selectors_from_spf}
use mailsec_probe.Dkim.Key.{Key, parse_key}
use mailsec_probe.DnsClient.{TxtResult, Client}
use mailsec_probe.Outcome.{Outcome, returned, ◌>>=◌}
use mailsec_probe.Signals.{
  Status, present, absent, unknown, dns_txt, Signal, Feature, lookup_signal, feature,
}
use mailsec_probe.Sort.{sort_strings}
use mailsec_probe.Text.{Bytes, codes, is_empty, trim_space, join, decimal}
use mailsec_probe.TxtTag.{Pair, parse, has, pick_by_version}

pub record Details : Type 0 where
  pub selectors_tried : List Bytes
  pub selectors_inferred : List Bytes
  pub selectors_found : List Bytes
  pub keys : List Key

-- The concurrency does not change what is computed, and is left out.
pub record Probe : Type 0 where
  pub dns : Client
  pub selectors : List Bytes
  pub inference_rules : List InferenceRule
  pub enable_inference : Bool
  pub include_raw : Bool

-- The local type `result`; `hit` holds `raw` and `pairs`.
pub record Lookup : Type 0 where
  pub selector : Bytes
  pub sig : Signal
  pub hit : Option (Bytes × List Pair)

abbrev first_key : Key → Bytes → Bytes
first_key k tag =
    if ltb 0 k.key_size
    then tag ++ (codes " (" ++ (k.key_type ++ (codes " " ++ (decimal k.key_size ++ codes "-bit)"))))
    else if not (is_empty k.key_type)
    then tag ++ (codes " (" ++ (k.key_type ++ codes ")"))
    else tag

abbrev with_key : List Key → Bytes → Bytes
with_key [] tag = tag
with_key (k ∷ keys) tag = first_key k tag

pub summary : Details → Bytes
unfolding decimal join
summary d =
    if length d.selectors_found == 0
    then codes "0/" ++ (decimal (length d.selectors_tried) ++ codes " selectors")
    else with_key d.keys (join d.selectors_found (codes ", "))

-- The records without a version: the first with a tag "p" or "k".
unfoldable pub first_untagged : List Bytes → Option (Bytes × List Pair)
unfolding parse has
first_untagged [] = none
first_untagged (rec ∷ records) =
    let rest = first_untagged records in
    let ps = parse rec in if has ps (codes "p") || has ps (codes "k") then some (rec, ps) else rest

abbrev or_else :
    Option (Bytes × List Pair) → Option (Bytes × List Pair) → Option (Bytes × List Pair)
or_else (some r) other = some r
or_else none other = other

unfoldable pub find_key : List Bytes → Option (Bytes × List Pair)
unfolding pick_by_version first_untagged
find_key records = or_else (pick_by_version records (codes "DKIM1")) (first_untagged records)

abbrev on_answer : Bytes → Bytes → TxtResult × Option Bytes → Lookup
on_answer selector target (res, some e) = record {
  selector = selector;
  sig = lookup_signal dns_txt target (some e) [];
  hit = none;
}
on_answer selector target (res, none) = record {
  selector = selector;
  sig = lookup_signal dns_txt target none res.records;
  hit = find_key res.records;
}

-- The body of one goroutine.
unfoldable pub look_up : Client → Bytes → Bytes → Lookup
unfolding find_key
look_up dns domain selector =
    let target = selector ++ (codes "._domainkey." ++ domain) in
    on_answer selector target (dns.lookup_txt target)

abbrev hit_of : Lookup → Option (Bytes × List Pair)
hit_of r = if r.sig.ok then r.hit else none

abbrev found_by : Option (Bytes × List Pair) → Bytes → List Bytes
found_by none selector = []
found_by (some h) selector = selector ∷ []

found_selectors : List Lookup → List Bytes
found_selectors [] = []
found_selectors (r ∷ results) = found_by (hit_of r) r.selector ++ found_selectors results

abbrev key_of : Bool → Bytes → Option (Bytes × List Pair) → Outcome (List Key) → Outcome (List Key)
key_of include_raw selector none rest = rest
key_of include_raw selector (some (raw, pairs)) rest =
    parse_key selector raw pairs include_raw >>= λ k. rest >>= λ ks. returned (k ∷ ks)

pub found_keys : Bool → List Lookup → Outcome (List Key)
unfolding parse_key
found_keys include_raw [] = returned []
found_keys include_raw (r ∷ results) =
    key_of include_raw r.selector (hit_of r) (found_keys include_raw results)

-- `anyFatal`.
any_failed : List Lookup → Bool
any_failed [] = false
any_failed (r ∷ results) = not r.sig.ok || any_failed results

success_count : List Lookup → ℕ
success_count [] = 0
success_count (r ∷ results) =
    if r.sig.ok then suc (success_count results) else success_count results

-- The selectors of the keys that are not revoked.
pub live_selectors : List Key → List Bytes
live_selectors [] = []
live_selectors (k ∷ keys) =
    if not k.revoked then k.selector ∷ live_selectors keys else live_selectors keys

abbrev dkim_feature : Status → ℕ → List Bytes → Details → List Signal → Feature Details
dkim_feature status confidence reasons d sigs =
    feature (codes "dkim") status confidence reasons (some d) sigs

abbrev not_found : Details → List Signal → Feature Details
not_found d sigs =
    dkim_feature absent 50
      ((codes "no DKIM key at any of "
          ++ (decimal (length d.selectors_tried) ++ codes " known selectors"))
        ∷ (codes "absence is heuristic "
            ++ (0xe2 ∷ 0x80 ∷ 0x94 ∷ codes " domain may use an unknown selector"))
        ∷ [])
      d sigs

abbrev revoked_reason : ℕ → Bytes
revoked_reason n =
    if leb n 2
    then codes "matched selector(s) return revoked DKIM keys (empty p=)"
    else codes "all matched selectors return revoked DKIM keys (likely wildcard TXT)"

-- The switch at the end.
unfoldable pub decide : List Lookup → Details → List Signal → Feature Details
unfolding live_selectors any_failed success_count sort_strings join decimal
decide results d sigs =
    let live = live_selectors d.keys in
    if ltb 0 (length live)
    then dkim_feature present 95
        ((codes "DKIM key(s) at: " ++ join (sort_strings live) (codes ", ")) ∷ []) d sigs
    else if ltb 0 (length d.selectors_found)
    then dkim_feature absent 90 (revoked_reason (length d.selectors_found) ∷ []) d sigs
    else if any_failed results && ltb (success_count results) (length results / 2)
    then dkim_feature unknown 20 (codes "too many selector lookups failed" ∷ []) d sigs
    else not_found d sigs

-- Base selectors, with those that SPF suggests behind them.
abbrev merged : List Bytes → List Bytes → List Bytes
merged base [] = base
merged base (s ∷ inferred) = dedupe_by trim_space (base ++ s ∷ inferred)

abbrev inferred_by : Probe → Bytes → List Bytes
inferred_by p domain =
    if p.enable_inference then infer_selectors_from_spf p.dns domain p.inference_rules else []

abbrev details_of : List Lookup → List Bytes → List Key → Details
details_of results inferred keys = record {
  selectors_tried = map (λ r. r.selector) results;
  selectors_inferred = inferred;
  selectors_found = sort_strings (found_selectors results);
  keys = keys;
}

abbrev judge : List Lookup → List Bytes → List Key → Feature Details
judge results inferred keys =
    decide results (details_of results inferred keys) (map (λ r. r.sig) results)

unfoldable pub run_one : Probe → Bytes → Outcome (Feature Details)
unfolding infer_selectors_from_spf look_up found_keys found_selectors decide sort_strings dedupe_by
    trim_space
run_one p domain =
    let inferred = inferred_by p domain in
    let results = map (look_up p.dns domain) (merged p.selectors inferred) in
    found_keys p.include_raw results >>= λ keys. returned (judge results inferred keys)
