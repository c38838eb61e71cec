-- ===== src/DnsSec.antt =====
-- internal/probe/dnssec/dnssec.go: DNSSEC by the AD bit and the DS records, or by a validator. The
-- validator, of a package outside the repository, is an argument, with the text of its verdict.
pub mod Judged
use mailsec_probe.Common.{
  if◌then◌else◌, ℕ, Bool, true, false, not, ◌&&◌, Option, none, some, List, [], ◌∷◌, ◌++◌,
}
use mailsec_probe.DnsClient.{TxtResult, Client}
use mailsec_probe.Signals.{
  Status, present, absent, unknown, misconfigured, Source, dns_txt, dns_ds, Signal, Feature, is_nil,
  error_text, feature,
}
use mailsec_probe.Text.{Bytes, codes, is_empty, has_suffix}

pub data Verdict : Type 0 where
  secure secure_no_data secure_nx_domain insecure bogus indeterminate : Verdict

pub record Validation : Type 0 where
  pub verdict : Verdict
  pub verdict_text : Bytes
  pub insecure_at : Bytes
  pub insecure_reason : Bytes
  pub bogus_at : Bytes
  pub bogus_reason : Bytes
  pub negative_reason : Bytes

-- `Validate` for the type TXT: a result that may be nil, with an error that may be nil.
abbrev pub Verifier : Type 0
Verifier = Bytes → Option Validation × Option Bytes

pub data Mode : Type 0 where
  ad_only validate : Mode

pub record Probe : Type 0 where
  pub dns : Client
  pub mode : Mode
  pub v : Option Verifier

pub record Details : Type 0 where
  pub ad_bit_on_txt : Bool
  pub has_ds : Bool
  pub verdict : Bytes
  pub insecure_at : Bytes
  pub insecure_reason : Bytes
  pub bogus_at : Bytes
  pub bogus_reason : Bytes
  pub negative_reason : Bytes

abbrev bits_text : Bool → Bool → Bytes
bits_text true true = codes "DS + AD"
bits_text true false = codes "DS only"
bits_text false true = codes "AD only"
bits_text false false = []

pub summary : Details → Bytes
summary d = if is_empty d.verdict then bits_text d.has_ds d.ad_bit_on_txt else d.verdict

abbrev bool_str : Bool → Bytes
bool_str true = codes "true"
bool_str false = codes "false"

abbrev dnssec_feature : Status → ℕ → List Bytes → Details → List Signal → Feature Details
dnssec_feature status confidence reasons d sigs =
    feature (codes "dnssec") status confidence reasons (some d) sigs

abbrev bit_details : Bool → Bool → Details
bit_details ad ds = record {
  ad_bit_on_txt = ad;
  has_ds = ds;
  verdict = [];
  insecure_at = [];
  insecure_reason = [];
  bogus_at = [];
  bogus_reason = [];
  negative_reason = [];
}

-- The switch on the two indicators.
abbrev judge_bits : Bool → Bool → List Signal → Feature Details
judge_bits ad true sigs =
    if ad
    then dnssec_feature present 100
        (codes "DS present in parent zone" ∷ codes "AD bit set on TXT response" ∷ [])
        (bit_details ad true) sigs
    else dnssec_feature present 85
        (codes "DS present in parent zone (AD bit not set; resolver may not validate)" ∷ [])
        (bit_details ad true) sigs
judge_bits ad false sigs =
    if ad
    then dnssec_feature present 70 (codes "AD bit set on TXT response (no DS observed)" ∷ [])
        (bit_details ad false) sigs
    else dnssec_feature absent 80 (codes "no DS in parent and no AD bit on TXT" ∷ [])
        (bit_details ad false) sigs

abbrev ad_signal : Source → Bytes → Bytes → Bool → Option Bytes → Signal
ad_signal source domain key bit e = record {
  source = source;
  target = domain;
  ok = is_nil e;
  records = [];
  meta = (key, bool_str bit) ∷ [];
  err = error_text e;
}

abbrev on_lookups : Bytes → TxtResult × Option Bytes → Bool × Option Bytes → Feature Details
on_lookups domain (txt, txt_err) (has_ds, ds_err) =
    let sigs =
      ad_signal dns_txt domain (codes "ad_bit") txt.ad txt_err
      ∷ ad_signal dns_ds domain (codes "has_ds") has_ds ds_err
      ∷ [] in
    if not (is_nil txt_err) && not (is_nil ds_err)
    then dnssec_feature unknown 0 (codes "both TXT and DS lookups failed" ∷ [])
        (bit_details txt.ad has_ds) sigs
    else judge_bits txt.ad has_ds sigs

unfoldable pub run_ad_only : Probe → Bytes → Feature Details
run_ad_only p domain = on_lookups domain (p.dns.lookup_txt domain) (p.dns.has_ds domain)

-- The name with its final dot.
abbrev fqdn : Bytes → Bytes
fqdn domain =
    if has_suffix domain (codes ".") && not (is_empty domain) then domain else domain ++ codes "."

abbrev or_nothing : Bool → Bytes → Bytes
or_nothing true s = []
or_nothing false s = s

abbrev insecure_text : Validation → Bytes
insecure_text r =
    (codes "insecure delegation"
      ++ or_nothing (is_empty r.insecure_at) (codes " at " ++ r.insecure_at))
    ++ or_nothing (is_empty r.insecure_reason) (codes " (" ++ (r.insecure_reason ++ codes ")"))

abbrev bogus_text : Validation → Bytes
bogus_text r =
    (codes "BOGUS" ++ or_nothing (is_empty r.bogus_at) (codes " at " ++ r.bogus_at))
    ++ or_nothing (is_empty r.bogus_reason) (codes ": " ++ r.bogus_reason)

abbrev chain_details : Validation → Details
chain_details r = record {
  ad_bit_on_txt = false;
  has_ds = false;
  verdict = r.verdict_text;
  insecure_at = r.insecure_at;
  insecure_reason = r.insecure_reason;
  bogus_at = r.bogus_at;
  bogus_reason = r.bogus_reason;
  negative_reason = r.negative_reason;
}

abbrev judge_chain : Verdict → Validation → List Signal → Feature Details
judge_chain insecure r sigs = dnssec_feature absent 90 (insecure_text r ∷ []) (chain_details r) sigs
judge_chain bogus r sigs =
    dnssec_feature misconfigured 95 (bogus_text r ∷ []) (chain_details r) sigs
judge_chain indeterminate r sigs =
    dnssec_feature unknown 0 (codes "DNSSEC verdict indeterminate" ∷ []) (chain_details r) sigs
judge_chain _ r sigs =
    dnssec_feature present 95 (codes "DNSSEC chain validated from root" ∷ []) (chain_details r) sigs

abbrev verdict_meta : Option Validation → List (Bytes × Bytes)
verdict_meta none = []
verdict_meta (some r) = (codes "verdict", r.verdict_text) ∷ []

abbrev chain_signal : Bytes → Option Validation → Option Bytes → Signal
chain_signal domain r e = record {
  source = dns_txt;
  target = domain;
  ok = is_nil e;
  records = [];
  meta = (codes "mode", codes "validate") ∷ verdict_meta r;
  err = error_text e;
}

abbrev chain_failed : Bytes → Signal → Feature Details
chain_failed message sig =
    dnssec_feature unknown 0 ((codes "chain validation failed: " ++ message) ∷ [])
      (record (bit_details false false) { verdict = codes "indeterminate" }) (sig ∷ [])

abbrev on_validation : Bytes → Option Validation × Option Bytes → Feature Details
on_validation domain (r, some e) = chain_failed e (chain_signal domain r (some e))
on_validation domain (none, none) =
    chain_failed (codes "validation error") (chain_signal domain none none)
on_validation domain (some r, none) =
    judge_chain r.verdict r (chain_signal domain (some r) none ∷ [])

abbrev validate_with : Option Verifier → Bytes → Feature Details
validate_with none domain =
    dnssec_feature unknown 0 (codes "validate mode selected but no Verifier configured" ∷ [])
      (bit_details false false) []
validate_with (some v) domain = on_validation domain (v (fqdn domain))

unfoldable pub run_validate : Probe → Bytes → Feature Details
unfolding has_suffix
run_validate p domain = validate_with p.v domain

abbrev by_mode : Mode → Probe → Bytes → Feature Details
by_mode validate p domain = run_validate p domain
by_mode ad_only p domain = run_ad_only p domain

unfoldable pub run_one : Probe → Bytes → Feature Details
unfolding run_validate run_ad_only
run_one p domain = by_mode p.mode p domain
