-- ===== src/Dedupe/Members.antt =====
-- The loop that removes duplicates: what it keeps, as a property of the elements.
use mailsec_probe.Common.{
  Some, Bool-cases, ◌≡◌, refl, sym, ◌∙◌, ◌≢◌, ◌↔◌, ◌⊎◌, inl, inr, true, false, List, [], ◌∷◌, ◌++◌,
  map, arith,
}
use mailsec_probe.Dedupe.{mem, dedupe_by}
use mailsec_probe.Dedupe.Laws.{mem-dedupe_by}
use mailsec_probe.Text.{Bytes, is_empty}
use mailsec_probe.Text.Match.{str_eq_iff, is_empty_iff, is_empty-false}

pub mem-map-Some :
    (norm : Bytes → Bytes) (t : Bytes) (xs : List Bytes)
    → (mem t (map norm xs) ≡ true) ↔ Some (λ x. norm x ≡ t) xs
unfolding mem
mem-map-Some norm t [] = ((λ h. absurd cc), λ s. absurd s)
mem-map-Some norm t (x ∷ xs) = ground (arith, str_eq_iff (norm x) t, mem-map-Some norm t xs)

pub mem-Some : (t : Bytes) (xs : List Bytes) → (mem t xs ≡ true) ↔ Some (λ x. x ≡ t) xs
unfolding mem
mem-Some t [] = ((λ h. absurd cc), λ s. absurd s)
mem-Some t (x ∷ xs) = ground (arith, str_eq_iff x t, mem-Some t xs)

-- A text is kept exactly when it is not empty and is the normal form of some element.
pub dedupe_by-Some :
    (norm : Bytes → Bytes) (t : Bytes) (xs : List Bytes)
    → Some (λ x. x ≡ t) (dedupe_by norm xs) ↔ ((t ≢ []) × Some (λ x. norm x ≡ t) xs)
dedupe_by-Some norm t xs =
    let kept = mem-Some t (dedupe_by norm xs) in
    let from = mem-map-Some norm t xs in
    let law = mem-dedupe_by norm t xs in
    elim (Bool-cases (is_empty t)) [
      | inl blank ↦
          let none_kept : mem t (dedupe_by norm xs) ≡ false = law ∙ rw blank refl in
          (
            (λ s. absurd (cc (kept.1 s, none_kept))),
            λ (ne, _). absurd (ne ((is_empty_iff t).0 blank)),
          )
      | inr solid ↦
          let same : mem t (dedupe_by norm xs) ≡ mem t (map norm xs) = law ∙ rw solid refl in
          (
            (λ s. (is_empty-false t solid, from.0 (sym same ∙ kept.1 s))),
            λ (_, s). kept.0 (same ∙ from.1 s),
          )
    ]

pub Some-append :
    {A : Type 0} (P : A → Type 0) (xs ys : List A) → Some P (xs ++ ys) ↔ (Some P xs ⊎ Some P ys)
Some-append P [] ys = ((λ s. inr s), λ s. elim s [ inl e ↦ absurd e | inr later ↦ later ])
Some-append P (x ∷ xs) ys = ground (arith, Some-append P xs ys)
