-- ===== src/MtaSts/Uncovered.antt =====
-- The MX comparison of `runOne` of internal/probe/mtasts/mtasts.go: when it finds a host that no
-- pattern covers.
use mailsec_probe.Common.{
  length, All, ltb, if◌then◌else◌, lt→ltb, ◌≡◌, refl, ◌≢◌, ◌↔◌, ◌⊎◌, inl, inr, true, false, Option,
  none, some, List, [], ◌∷◌, map, arith,
}
use mailsec_probe.DnsClient.{MxRecord, MxResult, Client}
use mailsec_probe.MtaSts.Compare.{Covered, compare_mx_against_policy_lem}
use mailsec_probe.MtaSts.Document.{Policy}
use mailsec_probe.MtaSts.Hosts.{MxMatch, compare_mx_against_policy}
use mailsec_probe.Text.{Bytes}
use mathlib.Core.List.{cons-ne-nil}
use mailsec_probe.MtaSts.{mx_check, mx_half, uncovered}

-- The hosts of the domain's MX records.
abbrev pub mx_hosts : MxResult × Option Bytes → List Bytes
mx_hosts answer = map (λ m. m.host) answer.0.records

abbrev pub NotUncovered : Policy → MxResult × Option Bytes → Type 0
NotUncovered policy answer =
    policy.mx ≢ [] → answer.1 ≡ none → All (Covered policy.mx) (mx_hosts answer)

uncovered_if :
    (records : List MxRecord) (m : MxMatch)
    → (uncovered (if ltb 0 (length records) then some (record m { checked = true }) else none)
        ≡ false)
      ↔ ((records ≡ []) ⊎ (m.all_matched ≡ true))
uncovered_if [] m = (λ _. inl refl, λ _. refl)
uncovered_if (r ∷ records) m = (λ h. inr (ground arith), λ h. ground arith)

Covered-of :
    (patterns : List Bytes) (records : List MxRecord)
    → (records ≡ [])
      ⊎ ((compare_mx_against_policy (map (λ m. m.host) records) patterns).all_matched ≡ true)
    → All (Covered patterns) (map (λ m. m.host) records)
Covered-of patterns records (inl e) = rw e tt
Covered-of patterns records (inr e) =
    (compare_mx_against_policy_lem (map (λ m. m.host) records) patterns).0.0 e

mx_check-uncovered :
    (domain : Bytes) (patterns : List Bytes) (answer : MxResult × Option Bytes)
    → (uncovered (mx_check domain patterns answer).0 ≡ false)
      ↔ (answer.1 ≡ none → All (Covered patterns) (mx_hosts answer))
mx_check-uncovered domain patterns (res, some e) = ((λ _ h. cc), λ _. refl)
mx_check-uncovered domain patterns (res, none) =
    let spec = (compare_mx_against_policy_lem (map (λ m. m.host) res.records) patterns).0 in
    let hosts = map (λ (m : MxRecord). m.host) res.records in
    let found = uncovered_if res.records (compare_mx_against_policy hosts patterns) in
    ((λ h _. Covered-of patterns res.records (found.0 h)), λ h. found.1 (inr (spec.1 (h refl))))

mx_half-cons :
    (dns : Client) (domain p : Bytes) (patterns : List Bytes)
    → mx_half dns domain true (p ∷ patterns) ≡ mx_check domain (p ∷ patterns) (dns.lookup_mx domain)
mx_half-cons dns domain p patterns = rw (lt→ltb 0 (length (p ∷ patterns)) (omega arith))

pub mx_half-uncovered :
    (dns : Client) (domain : Bytes) (patterns : List Bytes)
    → (uncovered (mx_half dns domain true patterns).0 ≡ false) ↔ (
        patterns ≢ []
        → (dns.lookup_mx domain).1 ≡ none
        → All (Covered patterns) (mx_hosts (dns.lookup_mx domain)))
mx_half-uncovered dns domain [] = ((λ _ ne. absurd (ne refl)), λ _. refl)
mx_half-uncovered dns domain (p ∷ patterns) =
    let spec = mx_check-uncovered domain (p ∷ patterns) (dns.lookup_mx domain) in
    rw (mx_half-cons dns domain p patterns)
      ((λ h _. spec.0 h), λ h. spec.1 (h (cons-ne-nil p patterns)))
