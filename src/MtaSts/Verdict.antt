-- ===== src/MtaSts/Verdict.antt =====
-- `runOne` of internal/probe/mtasts/mtasts.go: the verdict `present`, for every answer of the DNS
-- and of the policy host.
use mailsec_probe.Common.{
  All, ◌≡◌, refl, ◌≢◌, ◌↔◌, ◌⊎◌, false, Option, none, some, List, [], ◌++◌, if◌then◌else◌, inl, inr,
  true, ◌∷◌, arith, Bool, not, ◌||◌, ◌==◌, Bool-cases, Option-cases, ℕ,
}
use mailsec_probe.DnsClient.{TxtResult}
use mailsec_probe.MtaSts.{
  parse_policy, uncovered, Probe, Details, mx_half, decide, dns_half, is_some, assemble, run_one,
  http_half, policy_present,
}
use mailsec_probe.MtaSts.Compare.{Covered}
use mailsec_probe.Text.{Bytes, codes, is_empty, str_eq}
use mailsec_probe.TxtTag.{Pair, pick_by_version}
use mathlib.Core.List.{cons-ne-nil}
use mailsec_probe.Signals.{present, Signal, misconfigured}
use mailsec_probe.Text.Match.{str_eq_iff}
use mailsec_probe.MtaSts.Uncovered.{mx_hosts, NotUncovered, mx_half-uncovered}

abbrev pub marker_name : Bytes → Bytes
marker_name domain = codes "_mta-sts." ++ domain

abbrev pub policy_url : Bytes → Bytes
policy_url domain = codes "https://mta-sts." ++ (domain ++ codes "/.well-known/mta-sts.txt")

-- Both halves of MTA-STS are published, and they hold.
pub record IsDeployed (p : Probe) (domain : Bytes) : Type 0 where
  pub resolved : (p.dns.lookup_txt (marker_name domain)).1 ≡ none
  pub raw : Bytes
  pub pairs : List Pair
  pub marked :
      pick_by_version (p.dns.lookup_txt (marker_name domain)).0.records (codes "STSv1")
      ≡ some (raw, pairs)
  pub body : Bytes
  pub fetched : p.http.get (policy_url domain) ≡ (200, body, none)
  pub stated : ((parse_policy body).mode ≢ []) ⊎ ((parse_policy body).version ≢ [])
  pub enforced : (parse_policy body).mode ≢ codes "none"
  pub covers :
      (parse_policy body).mx ≢ []
      → (p.dns.lookup_mx domain).1 ≡ none
      → All (Covered (parse_policy body).mx) (mx_hosts (p.dns.lookup_mx domain))

decide-present :
    (marked found : Bool) (d : Details) (sigs : List Signal)
    → ((decide marked found d sigs).status ≡ present) ↔ (
        (marked ≡ true)
        × (found ≡ true)
        × (d.policy.mode ≢ codes "none")
        × (uncovered d.mx_match ≡ false))
decide-present true true d sigs = ground (arith, str_eq_iff d.policy.mode (codes "none"))
decide-present true false d sigs = ground arith
decide-present false true d sigs = ground arith
decide-present false false d sigs = ground arith

either_stated :
    (a b : Bytes) → ((not (is_empty a) || not (is_empty b)) ≡ true) ↔ ((a ≢ []) ⊎ (b ≢ []))
either_stated [] [] = ((λ h. cc), λ h. elim h [ inl n ↦ absurd (n refl) | inr n ↦ absurd (n refl) ])
either_stated [] (c ∷ b) = ((λ _. inr (cons-ne-nil c b)), λ _. refl)
either_stated (c ∷ a) b = ((λ _. inl (cons-ne-nil c a)), λ _. refl)

both_status :
    (mode : Bytes) (bad : Bool)
    → ((if str_eq mode (codes "none") || bad then misconfigured else present) ≡ present)
      ↔ ((mode ≢ codes "none") × (bad ≡ false))
both_status mode bad = ground (arith, str_eq_iff mode (codes "none"))

-- With a marker and a policy, the verdict rests on the mode and on the MX comparison.
assemble-present :
    (p : Probe) (domain target : Bytes) (txt : TxtResult × Option Bytes) (url body : Bytes)
    → is_some (dns_half p.include_raw txt) ≡ true
    → ((parse_policy body).mode ≢ []) ⊎ ((parse_policy body).version ≢ [])
    → ((assemble p domain target txt url (200, body, none)).status ≡ present) ↔ (
        ((parse_policy body).mode ≢ codes "none")
        × NotUncovered (parse_policy body) (p.dns.lookup_mx domain))
assemble-present p domain target txt url body marked stated =
    let found = (either_stated (parse_policy body).mode (parse_policy body).version).1 stated in
    let cover = mx_half-uncovered p.dns domain (parse_policy body).mx in
    let matched = (mx_half p.dns domain true (parse_policy body).mx).0 in
    let both = both_status (parse_policy body).mode (uncovered matched) in
    rw (marked, found)
      (
        (λ h. let (mode, fine) = both.0 h in (mode, cover.0 fine)),
        λ (mode, covers). both.1 (mode, cover.1 covers),
      )

none_marked :
    (include_raw : Bool) (txt : TxtResult × Option Bytes)
    → is_some (dns_half include_raw txt) ≡ true
    → (txt.1 ≡ none)
      × ((raw : Bytes) × (pairs : List Pair) × (pick_by_version txt.0.records (codes "STSv1")
            ≡ some (raw, pairs)))
none_marked include_raw (res, some e) h = cc
none_marked include_raw (res, none) h =
    elim (Option-cases (pick_by_version res.records (codes "STSv1"))) [
      | inl e ↦ cc (rw e at h)
      | inr ((raw, pairs), e) ↦ (refl, (raw, pairs, e))
    ]

found_policy :
    (include_raw : Bool) (response : ℕ × Bytes × Option Bytes)
    → policy_present (http_half include_raw response) ≡ true
    → (body : Bytes) × (response ≡ (200, body, none))
      × (((parse_policy body).mode ≢ []) ⊎ ((parse_policy body).version ≢ []))
found_policy include_raw (status, body, some e) h = cc
found_policy include_raw (status, body, none) h = elim (Bool-cases (status == 200)) [
  | inl good ↦ (
    body,
    ground arith,
    (either_stated (parse_policy body).mode (parse_policy body).version).0 (rw good at h),
  )
  | inr bad ↦ cc (rw bad at h)
]

-- A present verdict comes from both halves.
assemble-both :
    (p : Probe) (domain target : Bytes) (txt : TxtResult × Option Bytes) (url : Bytes)
    (response : ℕ × Bytes × Option Bytes)
    → (assemble p domain target txt url response).status ≡ present
    → (is_some (dns_half p.include_raw txt) ≡ true)
      × (policy_present (http_half p.include_raw response) ≡ true)
assemble-both p domain target txt url response h =
    elim (Bool-cases (is_some (dns_half p.include_raw txt))) [
      | inl marked ↦ elim (Bool-cases (policy_present (http_half p.include_raw response))) [
        | inl found ↦ (marked, found)
        | inr lost ↦ cc (rw (marked, lost) at h)
      ]
      | inr bare ↦ elim (Bool-cases (policy_present (http_half p.include_raw response))) [
        | inl found ↦ cc (rw (bare, found) at h)
        | inr lost ↦ cc (rw (bare, lost) at h)
      ]
    ]

run_one_sound :
    (p : Probe) (domain : Bytes) → (run_one p domain).status ≡ present → IsDeployed p domain
unfolding run_one
run_one_sound p domain h =
    let txt = p.dns.lookup_txt (marker_name domain) in
    let (marked, found) = assemble-both p domain _ txt _ (p.http.get (policy_url domain)) h in
    let (resolved, (raw, pairs, picked)) = none_marked p.include_raw txt marked in
    let (body, fetched, stated) =
      found_policy p.include_raw (p.http.get (policy_url domain)) found in
    let (mode, covers) =
      (assemble-present p domain (marker_name domain) txt (policy_url domain) body marked stated).0
        (rw fetched at h) in
    record {
      resolved = resolved;
      raw = raw;
      pairs = pairs;
      marked = picked;
      body = body;
      fetched = fetched;
      stated = stated;
      enforced = mode;
      covers = covers;
    }

is_marked :
    (include_raw : Bool) (txt : TxtResult × Option Bytes) {raw : Bytes} {pairs : List Pair}
    → txt.1 ≡ none
    → pick_by_version txt.0.records (codes "STSv1") ≡ some (raw, pairs)
    → is_some (dns_half include_raw txt) ≡ true
is_marked include_raw (res, some e) h k = cc
is_marked include_raw (res, none) h k = rw k

run_one_complete :
    (p : Probe) (domain : Bytes) → IsDeployed p domain → (run_one p domain).status ≡ present
unfolding run_one
run_one_complete p domain d =
    let txt = p.dns.lookup_txt (marker_name domain) in
    rw d.fetched (
      (assemble-present p domain (marker_name domain) txt (policy_url domain) d.body
          (is_marked p.include_raw txt d.resolved d.marked) d.stated).1
        (d.enforced, d.covers))

-- MTA-STS is reported present exactly when the marker is published, the policy host answers 200
-- with a policy that states a mode or a version, the mode is not "none", and the MX hosts, where the
-- policy has patterns and the MX lookup succeeds, are all covered by the patterns.
pub run_one-IsDeployed :
    (p : Probe) (domain : Bytes) → ((run_one p domain).status ≡ present) ↔ IsDeployed p domain
run_one-IsDeployed p domain = (run_one_sound p domain, run_one_complete p domain)
