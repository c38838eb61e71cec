-- ===== src/Dkim/Scan/KeyRecord.antt =====
-- The key record that `runOne` of internal/probe/dkim/dkim.go takes of the TXT records of a selector.
use mailsec_probe.Common.{
  All, Some, Bool-cases, Option-cases, ◌≡◌, refl, ap, ◌∙◌, subst, ◌↔◌, ◌⊎◌, inl, inr, true, ◌||◌,
  some, List, [], ◌∷◌, ◌++◌, arith,
}
use mailsec_probe.Dkim.Scan.{first_untagged, find_key}
use mailsec_probe.Text.{Bytes, codes, str_eq}
use mailsec_probe.Text.Match.{str_eq_iff}
use mailsec_probe.TxtTag.{Pair, parse, has, pick_by_version}
use mailsec_probe.TxtTag.Select.{Declares, IsPick, pick_by_version_iff, pick_by_version-none}

-- A record has a tag "p" or "k".
abbrev HasKeyTag : Bytes → Type 0
HasKeyTag rec = Some (λ pair. (pair.tag ≡ codes "p") ⊎ (pair.tag ≡ codes "k")) (parse rec)

-- The first record with such a tag, and its pairs.
pub record IsUntagged (records : List Bytes) (raw : Bytes) (pairs : List Pair) : Type 0 where
  pub before : List Bytes
  pub after : List Bytes
  pub splits : records ≡ before ++ raw ∷ after
  pub others : All (λ r. ¬ HasKeyTag r) before
  pub tagged : HasKeyTag raw
  pub parsed : pairs ≡ parse raw

-- The first record that declares the version "DKIM1"; without one, the first with a tag "p" or "k".
abbrev pub IsKeyRecord : List Bytes → Bytes → List Pair → Type 0
IsKeyRecord records raw pairs =
    IsPick records (codes "DKIM1") raw pairs
    ⊎ (All (λ r. ¬ Declares (codes "DKIM1") r) records × IsUntagged records raw pairs)

has-Some :
    (ps : List Pair)
    → ((has ps (codes "p") || has ps (codes "k")) ≡ true)
      ↔ Some (λ pair. (pair.tag ≡ codes "p") ⊎ (pair.tag ≡ codes "k")) ps
unfolding has
has-Some [] = ((λ h. absurd cc), λ s. absurd s)
has-Some (q ∷ ps) =
    let p = str_eq_iff q.tag (codes "p") in
    let k = str_eq_iff q.tag (codes "k") in
    let rest = has-Some ps in
    elim (Bool-cases (str_eq q.tag (codes "p"))) [
      | inl is_p ↦ rw is_p ((λ _. inl (inl (p.0 is_p))), λ _. refl)
      | inr not_p ↦ elim (Bool-cases (str_eq q.tag (codes "k"))) [
        | inl is_k ↦ rw (not_p, is_k) ((λ _. inl (inr (k.0 is_k))), λ _. ground arith)
        | inr neither ↦
            rw (not_p, neither)
              (
                (λ h. inr (rest.0 h)),
                λ s. elim s [
                  | inl (inl e) ↦ absurd (cc (p.1 e, not_p))
                  | inl (inr e) ↦ absurd (cc (k.1 e, neither))
                  | inr later ↦ rest.1 later
                ],
              )
      ]
    ]

first_untagged_sound :
    (records : List Bytes) {raw : Bytes} {pairs : List Pair}
    → first_untagged records ≡ some (raw, pairs)
    → IsUntagged records raw pairs
unfolding first_untagged
first_untagged_sound [] h = cc
first_untagged_sound (r ∷ records) {raw} {pairs} h =
    elim (Bool-cases (has (parse r) (codes "p") || has (parse r) (codes "k"))) [
      | inl hit ↦
          let found : some (r, parse r) ≡ some (raw, pairs) = rw hit at h in
          let same : r ≡ raw = cc found in
          record {
            before = [];
            after = records;
            splits = ap (λ x. x ∷ records) same;
            others = tt;
            tagged = subst HasKeyTag same ((has-Some (parse r)).0 hit);
            parsed = cc found;
          }
      | inr miss ↦
          let u = first_untagged_sound records (rw miss at h) in
          record {
            before = r ∷ u.before;
            after = u.after;
            splits = ap (◌∷◌ r) u.splits;
            others = (λ t. absurd (cc ((has-Some (parse r)).1 t, miss)), u.others);
            tagged = u.tagged;
            parsed = u.parsed;
          }
    ]

first_untagged-append :
    (before : List Bytes) (raw : Bytes) (after : List Bytes)
    → All (λ r. ¬ HasKeyTag r) before
    → HasKeyTag raw
    → first_untagged (before ++ raw ∷ after) ≡ some (raw, parse raw)
unfolding first_untagged
first_untagged-append [] raw after h tagged = rw ((has-Some (parse raw)).1 tagged)
first_untagged-append (r ∷ before) raw after h tagged =
    elim (Bool-cases (has (parse r) (codes "p") || has (parse r) (codes "k"))) [
      | inl hit ↦ absurd (h.0 ((has-Some (parse r)).0 hit))
      | inr miss ↦ rw miss (first_untagged-append before raw after h.1 tagged)
    ]

pub find_key_iff :
    (records : List Bytes) (raw : Bytes) (pairs : List Pair)
    → (find_key records ≡ some (raw, pairs)) ↔ IsKeyRecord records raw pairs
unfolding find_key
find_key_iff records raw pairs =
    let pick = pick_by_version_iff records (codes "DKIM1") raw pairs in
    let none_declares = pick_by_version-none records (codes "DKIM1") in
    elim (Option-cases (pick_by_version records (codes "DKIM1"))) [
      | inl miss ↦ (
        (λ h. inr (none_declares.0 miss, first_untagged_sound records (rw miss at h))),
        λ k. elim k [
          | inl p ↦ absurd (cc (pick.1 p, miss))
          | inr (_, u) ↦
              rw (miss, u.splits, u.parsed)
                (first_untagged-append u.before raw u.after u.others u.tagged)
        ],
      )
      | inr (hit, found) ↦ (
        (λ h. inl (pick.0 (found ∙ rw found at h))),
        λ k. elim k [
          | inl p ↦ rw (pick.1 p)
          | inr (all, _) ↦ absurd (cc (none_declares.1 all, found))
        ],
      )
    ]
