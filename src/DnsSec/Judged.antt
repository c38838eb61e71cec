-- ===== src/DnsSec/Judged.antt =====
-- `runOne` of internal/probe/dnssec/dnssec.go in its two modes.
use mailsec_probe.DnsSec.{
  Validation, Verifier, fqdn, secure, secure_no_data, secure_nx_domain, insecure, bogus,
  indeterminate, Probe, run_one, Verdict, validate, run_validate, judge_bits, judge_chain,
  on_validation, validate_with, on_lookups, ad_only, run_ad_only,
}
use mailsec_probe.Signals.{Status, present, absent, unknown, misconfigured, Signal}
use mailsec_probe.Text.{Bytes}
use mailsec_probe.Common.{
  ◌≡◌, ◌⊎◌, Option, none, some, refl, subst, ◌≢◌, ◌↔◌, inl, inr, Bool, true, false, List, arith, [],
}
use mailsec_probe.DnsClient.{TxtResult}

-- What a validator says of the domain, and the status that it calls for.
pub data Chain (v : Option Verifier) (domain : Bytes) : Status → Type 0 where
  validated :
      (f : Verifier) (r : Validation)
      → v ≡ some f
      → f (fqdn domain) ≡ (some r, none)
      → (r.verdict ≡ secure) ⊎ ((r.verdict ≡ secure_no_data) ⊎ (r.verdict ≡ secure_nx_domain))
      → Chain v domain present
  delegated :
      (f : Verifier) (r : Validation)
      → v ≡ some f
      → f (fqdn domain) ≡ (some r, none)
      → r.verdict ≡ insecure
      → Chain v domain absent
  broken :
      (f : Verifier) (r : Validation)
      → v ≡ some f
      → f (fqdn domain) ≡ (some r, none)
      → r.verdict ≡ bogus
      → Chain v domain misconfigured
  undecided :
      (f : Verifier) (r : Validation)
      → v ≡ some f
      → f (fqdn domain) ≡ (some r, none)
      → r.verdict ≡ indeterminate
      → Chain v domain unknown
  failed :
      (f : Verifier) (e : Bytes)
      → v ≡ some f
      → (f (fqdn domain)).1 ≡ some e
      → Chain v domain unknown
  no_result : (f : Verifier) → v ≡ some f → f (fqdn domain) ≡ (none, none) → Chain v domain unknown
  no_verifier : v ≡ none → Chain v domain unknown

judge_chain-Chain :
    (v : Option Verifier) (domain : Bytes) (f : Verifier) (r : Validation) (sigs : List Signal)
    → v ≡ some f
    → f (fqdn domain) ≡ (some r, none)
    → (verdict : Verdict) → r.verdict ≡ verdict
    → Chain v domain (judge_chain verdict r sigs).status
judge_chain-Chain v domain f r sigs e k secure h = validated f r e k (inl h)
judge_chain-Chain v domain f r sigs e k secure_no_data h = validated f r e k (inr (inl h))
judge_chain-Chain v domain f r sigs e k secure_nx_domain h = validated f r e k (inr (inr h))
judge_chain-Chain v domain f r sigs e k insecure h = delegated f r e k h
judge_chain-Chain v domain f r sigs e k bogus h = broken f r e k h
judge_chain-Chain v domain f r sigs e k indeterminate h = undecided f r e k h

on_validation-Chain :
    (v : Option Verifier) (domain : Bytes) (f : Verifier)
    (answer : Option Validation × Option Bytes)
    → v ≡ some f
    → f (fqdn domain) ≡ answer
    → Chain v domain (on_validation domain answer).status
on_validation-Chain v domain f (r, some message) e k = failed f message e (rw k)
on_validation-Chain v domain f (none, none) e k = no_result f e k
on_validation-Chain v domain f (some r, none) e k =
    judge_chain-Chain v domain f r _ e k r.verdict refl

validate_with-Chain :
    (v : Option Verifier) (domain : Bytes) → Chain v domain (validate_with v domain).status
validate_with-Chain none domain = no_verifier refl
validate_with-Chain (some f) domain =
    on_validation-Chain (some f) domain f (f (fqdn domain)) refl refl

on_validation-failed :
    (domain : Bytes) (answer : Option Validation × Option Bytes) {e : Bytes}
    → answer.1 ≡ some e
    → (on_validation domain answer).status ≡ unknown
on_validation-failed domain (r, some m) h = refl
on_validation-failed domain (none, none) h = cc
on_validation-failed domain (some r, none) h = cc

Chain-status :
    (v : Option Verifier) (domain : Bytes) {s : Status}
    → Chain v domain s
    → (validate_with v domain).status ≡ s
Chain-status v domain (validated f r e k (inl h)) = rw (e, k, h)
Chain-status v domain (validated f r e k (inr (inl h))) = rw (e, k, h)
Chain-status v domain (validated f r e k (inr (inr h))) = rw (e, k, h)
Chain-status v domain (delegated f r e k h) = rw (e, k, h)
Chain-status v domain (broken f r e k h) = rw (e, k, h)
Chain-status v domain (undecided f r e k h) = rw (e, k, h)
Chain-status v domain (failed f m e k) = rw e (on_validation-failed domain (f (fqdn domain)) k)
Chain-status v domain (no_result f e k) = rw (e, k)
Chain-status v domain (no_verifier e) = rw e

-- In validate mode the status follows the validator's answer for the domain's full name. Present: a
-- chain validated from the root, for data or for its absence. Absent: an insecure delegation.
-- Misconfigured: a bogus chain. Unknown: an indeterminate chain, an error, no result, and a probe
-- with no validator.
pub run_one-Chain :
    (p : Probe) (domain : Bytes) (status : Status)
    → p.mode ≡ validate
    → ((run_one p domain).status ≡ status) ↔ Chain p.v domain status
unfolding run_one run_validate
run_one-Chain p domain status mode = rw mode (
  (λ h. subst (Chain p.v domain) h (validate_with-Chain p.v domain)),
  λ c. Chain-status p.v domain c,
)

judge_bits-status :
    (ad ds : Bool) (sigs : List Signal)
    → (((judge_bits ad ds sigs).status ≡ present) ↔ ((ad ≡ true) ⊎ (ds ≡ true)))
      × (((judge_bits ad ds sigs).status ≡ absent) ↔ ((ad ≡ false) × (ds ≡ false)))
      × ((judge_bits ad ds sigs).status ≢ unknown)
judge_bits-status true true sigs = ground arith
judge_bits-status true false sigs = ground arith
judge_bits-status false true sigs = ground arith
judge_bits-status false false sigs = ground arith

-- The two lookups, and the status that they call for.
abbrev pub IsBitVerdict : TxtResult × Option Bytes → Bool × Option Bytes → Status → Type 0
IsBitVerdict txt ds status =
    ((status ≡ unknown) ↔ ((txt.1 ≢ none) × (ds.1 ≢ none)))
    × ((status ≡ present)
        ↔ (((txt.1 ≡ none) ⊎ (ds.1 ≡ none)) × ((txt.0.ad ≡ true) ⊎ (ds.0 ≡ true))))
    × ((status ≡ absent) ↔ (((txt.1 ≡ none) ⊎ (ds.1 ≡ none)) × (txt.0.ad ≡ false) × (ds.0 ≡ false)))

on_lookups-IsBitVerdict :
    (domain : Bytes) (txt : TxtResult × Option Bytes) (ds : Bool × Option Bytes)
    → IsBitVerdict txt ds (on_lookups domain txt ds).status
on_lookups-IsBitVerdict domain (res, some e) (b, some e') = ground arith
on_lookups-IsBitVerdict domain (res, some e) (b, none) =
    let k = judge_bits-status res.ad b in ground (arith, k [])
on_lookups-IsBitVerdict domain (res, none) (b, some e') = ground arith
on_lookups-IsBitVerdict domain (res, none) (b, none) = ground arith

-- In AD-only mode the status rests on the two lookups. Unknown: both failed. Otherwise present if the
-- AD bit is set or a DS record is there, and absent if neither is, where a lookup that failed counts
-- with the value that came with its error.
pub run_one-IsBitVerdict :
    (p : Probe) (domain : Bytes)
    → p.mode ≡ ad_only
    → IsBitVerdict (p.dns.lookup_txt domain) (p.dns.has_ds domain) (run_one p domain).status
unfolding run_one run_ad_only
run_one-IsBitVerdict p domain mode =
    rw mode (on_lookups-IsBitVerdict domain (p.dns.lookup_txt domain) (p.dns.has_ds domain))
