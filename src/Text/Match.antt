-- ===== src/Text/Match.antt =====
-- What the tests on texts decide: equality, equality up to letter case, prefixes and suffixes.
use mailsec_probe.Common.{
  ℕ, true, [], ◌∷◌, ◌++◌, ◌≡◌, ◌↔◌, refl, ap, inl, inr, arith, Bool-cases, ◌≢◌, false,
}
use mailsec_probe.Text.{
  Bytes, str_eq, lower_byte, to_lower, equal_fold, has_prefix, has_suffix, is_empty,
}
use mathlib.Core.List.{cons-ne-nil}

pub str_eq_iff : (a b : Bytes) → (str_eq a b ≡ true) ↔ (a ≡ b)
unfolding str_eq
str_eq_iff (x ∷ a) (y ∷ b) = ground (arith, str_eq_iff a b)
str_eq_iff _ _ = ground arith

pub str_eq_refl : (a : Bytes) → str_eq a a ≡ true
str_eq_refl a = (str_eq_iff a a).1 refl

-- `EqualFold` compares the lower-case forms.
pub equal_fold_iff : (a b : Bytes) → (equal_fold a b ≡ true) ↔ (to_lower a ≡ to_lower b)
unfolding equal_fold to_lower
equal_fold_iff (x ∷ a) (y ∷ b) = ground (arith, equal_fold_iff a b)
equal_fold_iff _ _ = ground arith

lower_byte_idem : (c : ℕ) → lower_byte (lower_byte c) ≡ lower_byte c
unfolding lower_byte
lower_byte_idem c = ground arith

pub to_lower_idem : (s : Bytes) → to_lower (to_lower s) ≡ to_lower s
unfolding to_lower
to_lower_idem [] = refl
to_lower_idem (c ∷ s) = cc (lower_byte_idem c, to_lower_idem s)

pub has_prefix_sound : (s p : Bytes) → has_prefix s p ≡ true → (r : Bytes) × (s ≡ p ++ r)
unfolding has_prefix
has_prefix_sound s [] h = (s, refl)
has_prefix_sound [] (c ∷ p) h = cc
has_prefix_sound (d ∷ s) (c ∷ p) h =
    let (r, e) = has_prefix_sound s p (ground arith) in (r, ground arith)

pub has_prefix_complete : (p r : Bytes) → has_prefix (p ++ r) p ≡ true
unfolding has_prefix
has_prefix_complete [] r = refl
has_prefix_complete (c ∷ p) r = ground (arith, has_prefix_complete p r)

pub has_suffix_sound : (s p : Bytes) → has_suffix s p ≡ true → (r : Bytes) × (s ≡ r ++ p)
unfolding has_suffix
has_suffix_sound [] p h = ([], (str_eq_iff [] p).0 h)
has_suffix_sound (c ∷ s) p h = elim (Bool-cases (str_eq (c ∷ s) p)) [
  | inl same ↦ ([], (str_eq_iff (c ∷ s) p).0 same)
  | inr longer ↦ let (r, e) = has_suffix_sound s p (ground arith) in (c ∷ r, ap (◌∷◌ c) e)
]

pub has_suffix_complete : (r p : Bytes) → has_suffix (r ++ p) p ≡ true
unfolding has_suffix
has_suffix_complete [] [] = unfold str_eq in refl
has_suffix_complete [] (c ∷ p) = rw (str_eq_refl (c ∷ p))
has_suffix_complete (c ∷ r) p = ground (arith, has_suffix_complete r p)

pub is_empty_iff : (s : Bytes) → (is_empty s ≡ true) ↔ (s ≡ [])
is_empty_iff [] = ground arith
is_empty_iff (c ∷ s) = ground arith

pub is_empty-false : (s : Bytes) → is_empty s ≡ false → s ≢ []
is_empty-false [] h = cc
is_empty-false (c ∷ s) h = cons-ne-nil c s
