-- ===== src/Bimi.antt =====
-- internal/probe/bimi/bimi.go: the BIMI record at <selector>._bimi.<domain>.
pub mod Verdict
use mailsec_probe.Common.{
  if◌then◌else◌, ℕ, Bool, true, false, not, Option, none, some, List, [], ◌∷◌, ◌++◌,
}
use mailsec_probe.DnsClient.{TxtResult, Client}
use mailsec_probe.Signals.{
  Status, present, absent, unknown, dns_txt, Signal, Feature, lookup_signal, feature,
}
use mailsec_probe.Text.{Bytes, codes, is_empty, join}
use mailsec_probe.TxtTag.{Pair, get, pick_by_version}

pub record Details : Type 0 where
  pub logo_uri : Bytes
  pub vmc_uri : Bytes
  pub raw : Bytes

pub record Probe : Type 0 where
  pub dns : Client
  pub selector : Bytes
  pub include_raw : Bool

abbrev part_if : Bool → Bytes → List Bytes
part_if true part = part ∷ []
part_if false part = []

pub summary : Details → Bytes
unfolding join
summary d =
    join
      (part_if (not (is_empty d.logo_uri)) (codes "logo=" ++ d.logo_uri)
        ++ part_if (not (is_empty d.vmc_uri)) (codes "vmc=yes"))
      (codes ", ")

abbrev bimi_feature : Status → ℕ → List Bytes → Option Details → Signal → Feature Details
bimi_feature status confidence reasons details sig =
    feature (codes "bimi") status confidence reasons details (sig ∷ [])

abbrev on_pick : Bool → Bytes → Option (Bytes × List Pair) → Signal → Feature Details
on_pick include_raw target none sig =
    bimi_feature absent 85 ((codes "no v=BIMI1 TXT at " ++ target) ∷ []) none sig
on_pick include_raw target (some (raw, pairs)) sig =
    bimi_feature present 90 (codes "v=BIMI1" ∷ [])
      (some (record {
        logo_uri = get pairs (codes "l");
        vmc_uri = get pairs (codes "a");
        raw = if include_raw then raw else [];
      }))
      sig

abbrev observe : Bool → Bytes → TxtResult × Option Bytes → Feature Details
observe include_raw target (res, some e) =
    bimi_feature unknown 0 ((codes "BIMI TXT lookup failed: " ++ e) ∷ []) none
      (lookup_signal dns_txt target (some e) [])
observe include_raw target (res, none) =
    on_pick include_raw target (pick_by_version res.records (codes "BIMI1"))
      (lookup_signal dns_txt target none res.records)

unfoldable pub run_one : Probe → Bytes → Feature Details
unfolding pick_by_version get
run_one p domain =
    let selector = if is_empty p.selector then codes "default" else p.selector in
    let target = selector ++ (codes "._bimi." ++ domain) in
    observe p.include_raw target (p.dns.lookup_txt target)
