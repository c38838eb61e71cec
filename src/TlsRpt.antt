-- ===== src/TlsRpt.antt =====
-- internal/probe/tlsrpt/tlsrpt.go: the TLS-RPT record at _smtp._tls.<domain>.
pub mod Verdict
use mailsec_probe.Common.{if◌then◌else◌, ℕ, Bool, Option, none, some, List, [], ◌∷◌, ◌++◌}
use mailsec_probe.DnsClient.{TxtResult, Client}
use mailsec_probe.Signals.{
  Status, present, absent, unknown, misconfigured, dns_txt, Signal, Feature, lookup_signal, feature,
}
use mailsec_probe.Text.{Bytes, codes, is_empty}
use mailsec_probe.TxtTag.{Pair, get, pick_by_version}

pub record Details : Type 0 where
  pub reporting_uris : Bytes
  pub raw : Bytes

pub record Probe : Type 0 where
  pub dns : Client
  pub include_raw : Bool

pub summary : Details → Bytes
summary d = if is_empty d.reporting_uris then [] else codes "rua=" ++ d.reporting_uris

abbrev tlsrpt_feature : Status → ℕ → List Bytes → Option Details → Signal → Feature Details
tlsrpt_feature status confidence reasons details sig =
    feature (codes "tls-rpt") status confidence reasons details (sig ∷ [])

abbrev judged : Details → Signal → Feature Details
judged d sig =
    if is_empty d.reporting_uris
    then tlsrpt_feature misconfigured 90
        (codes "v=TLSRPTv1" ∷ codes "TLS-RPT record lacks required rua= tag" ∷ []) (some d) sig
    else tlsrpt_feature present 90 (codes "v=TLSRPTv1" ∷ []) (some d) sig

abbrev on_pick : Bool → Bytes → Option (Bytes × List Pair) → Signal → Feature Details
on_pick include_raw target none sig =
    tlsrpt_feature absent 90 ((codes "no v=TLSRPTv1 TXT at " ++ target) ∷ []) none sig
on_pick include_raw target (some (raw, pairs)) sig =
    judged
      (record { reporting_uris = get pairs (codes "rua"); raw = if include_raw then raw else [] })
      sig

abbrev observe : Bool → Bytes → TxtResult × Option Bytes → Feature Details
observe include_raw target (res, some e) =
    tlsrpt_feature unknown 0 ((codes "TLS-RPT TXT lookup failed: " ++ e) ∷ []) none
      (lookup_signal dns_txt target (some e) [])
observe include_raw target (res, none) =
    on_pick include_raw target (pick_by_version res.records (codes "TLSRPTv1"))
      (lookup_signal dns_txt target none res.records)

unfoldable pub run_one : Probe → Bytes → Feature Details
unfolding pick_by_version get
run_one p domain =
    let target = codes "_smtp._tls." ++ domain in
    observe p.include_raw target (p.dns.lookup_txt target)
