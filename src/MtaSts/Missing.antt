-- ===== src/MtaSts/Missing.antt =====
-- `runOne` of internal/probe/mtasts/mtasts.go: the verdict `absent`, for every answer of the DNS and
-- of the policy host.
use mailsec_probe.MtaSts.{
  Probe, run_one, parse_policy, dns_half, http_half, policy_present, is_some, assemble,
}
use mailsec_probe.MtaSts.Verdict.{marker_name, policy_url}
use mailsec_probe.Common.{
  All, ◌==◌, Bool-cases, Option-cases, ℕ, ◌≡◌, refl, ◌≢◌, ◌↔◌, inl, inr, Bool, false, Option, none,
  some, [], arith,
}
use mailsec_probe.DnsClient.{TxtResult}
use mailsec_probe.Signals.{absent}
use mailsec_probe.Text.{Bytes, codes}
use mailsec_probe.Text.Match.{is_empty_iff}
use mailsec_probe.TxtTag.{pick_by_version}
use mailsec_probe.TxtTag.Select.{Declares, pick_by_version-none}

-- No marker is seen: the lookup fails, or no record of the answer declares STSv1.
pub data NoMarker : TxtResult × Option Bytes → Type 0 where
  lookup_failed : (res : TxtResult) (e : Bytes) → NoMarker (res, some e)
  undeclared :
      (res : TxtResult) → All (λ r. ¬ Declares (codes "STSv1") r) res.records → NoMarker (res, none)

-- No policy is seen: the request fails, its status is not 200, or the body states no mode and no
-- version.
pub data NoPolicy : ℕ × Bytes × Option Bytes → Type 0 where
  request_failed : (status : ℕ) (body e : Bytes) → NoPolicy (status, body, some e)
  refused : (status : ℕ) (body : Bytes) → status ≢ 200 → NoPolicy (status, body, none)
  unstated :
      (body : Bytes)
      → (parse_policy body).mode ≡ []
      → (parse_policy body).version ≡ []
      → NoPolicy (200, body, none)

dns_half-NoMarker :
    (include_raw : Bool) (txt : TxtResult × Option Bytes)
    → (is_some (dns_half include_raw txt) ≡ false) ↔ NoMarker txt
dns_half-NoMarker include_raw (res, some e) = ((λ _. lookup_failed res e), λ _. refl)
dns_half-NoMarker include_raw (res, none) =
    let spec = pick_by_version-none res.records (codes "STSv1") in
    elim (Option-cases (pick_by_version res.records (codes "STSv1"))) [
      | inl e ↦ rw e ((λ _. undeclared res (spec.0 e)), λ _. refl)
      | inr ((raw, pairs), e) ↦
          rw e ((λ h. cc), λ n. elim n [ undeclared _ all ↦ cc (rw e at spec.1 all) ])
    ]

NoPolicy-http_half :
    (include_raw : Bool) {response : ℕ × Bytes × Option Bytes}
    → NoPolicy response
    → policy_present (http_half include_raw response) ≡ false
NoPolicy-http_half include_raw (request_failed status body e) = refl
NoPolicy-http_half include_raw (refused status body ne) = ground (arith, ne)
NoPolicy-http_half include_raw (unstated body m v) = rw (m, v)

http_half-NoPolicy :
    (include_raw : Bool) (response : ℕ × Bytes × Option Bytes)
    → (policy_present (http_half include_raw response) ≡ false) ↔ NoPolicy response
http_half-NoPolicy include_raw (status, body, some e) =
    ((λ _. request_failed status body e), λ _. refl)
http_half-NoPolicy include_raw (status, body, none) = (to, NoPolicy-http_half include_raw)
  where
    to :
        policy_present (http_half include_raw (status, body, none)) ≡ false
        → NoPolicy (status, body, none)
    to h = elim (Bool-cases (status == 200)) [
      | inl good ↦
          let e : status ≡ 200 = ground (arith, good) in
          let bare = rw good at h in
          rw e (
            unstated body ((is_empty_iff (parse_policy body).mode).0 (ground arith))
              ((is_empty_iff (parse_policy body).version).0 (ground arith)))
      | inr bad ↦ refused status body (ground (arith, bad))
    ]

assemble-absent :
    (p : Probe) (domain target : Bytes) (txt : TxtResult × Option Bytes) (url : Bytes)
    (response : ℕ × Bytes × Option Bytes)
    → ((assemble p domain target txt url response).status ≡ absent) ↔ (
        (is_some (dns_half p.include_raw txt) ≡ false)
        × (policy_present (http_half p.include_raw response) ≡ false))
assemble-absent p domain target txt url response =
    elim (Bool-cases (is_some (dns_half p.include_raw txt))) [
      | inl marked ↦ elim (Bool-cases (policy_present (http_half p.include_raw response))) [
        | inl found ↦ rw (marked, found) (ground arith)
        | inr lost ↦ rw (marked, lost) (ground arith)
      ]
      | inr bare ↦ elim (Bool-cases (policy_present (http_half p.include_raw response))) [
        | inl found ↦ rw (bare, found) (ground arith)
        | inr lost ↦ rw (bare, lost) (ground arith)
      ]
    ]

-- MTA-STS is reported absent exactly when no marker and no policy is seen. A lookup or a request
-- that fails counts as nothing seen, so that two failures are reported as absence.
pub run_one-NoPolicy :
    (p : Probe) (domain : Bytes)
    → ((run_one p domain).status ≡ absent) ↔ (
        NoMarker (p.dns.lookup_txt (marker_name domain))
        × NoPolicy (p.http.get (policy_url domain)))
unfolding run_one
run_one-NoPolicy p domain =
    let txt = p.dns.lookup_txt (marker_name domain) in
    let response = p.http.get (policy_url domain) in
    let whole = assemble-absent p domain (marker_name domain) txt (policy_url domain) response in
    let left = dns_half-NoMarker p.include_raw txt in
    let right = http_half-NoPolicy p.include_raw response in
    (
      (λ h. let (a, b) = whole.0 h in (left.0 a, right.0 b)),
      λ (a, b). whole.1 (left.1 a, right.1 b),
    )
