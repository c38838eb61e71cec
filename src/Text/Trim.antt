-- ===== src/Text/Trim.antt =====
-- Laws of `TrimSpace`.
use mailsec_probe.Common.{ℕ, true, false, [], ◌∷◌, ◌++◌, ◌≡◌, refl, sym, ap, ◌∙◌, arith, All}
use mailsec_probe.Text.{Bytes, is_space, trim_left, trim_right, trim_space}

-- No white space at either end.
pub record IsTrimmed (s : Bytes) : Type 0 where
  pub left : trim_left s ≡ s
  pub right : trim_right s ≡ s

abbrev pub Blank : Bytes → Type 0
Blank = All (λ c. is_space c ≡ true)

trim_left_idem : (s : Bytes) → trim_left (trim_left s) ≡ trim_left s
unfolding trim_left
trim_left_idem [] = refl
trim_left_idem (c ∷ s) = ground (arith, trim_left_idem s)

pub trim_right_idem : (s : Bytes) → trim_right (trim_right s) ≡ trim_right s
unfolding trim_right
trim_right_idem [] = refl
trim_right_idem (c ∷ s) = ground (arith, trim_right_idem s)

-- The two trims commute.
trim_left-trim_right : (s : Bytes) → trim_left (trim_right s) ≡ trim_right (trim_left s)
unfolding trim_left trim_right
trim_left-trim_right [] = refl
trim_left-trim_right (c ∷ s) = ground (arith, trim_left-trim_right s)

pub trim_space-trim_left : (s : Bytes) → trim_space (trim_left s) ≡ trim_space s
unfolding trim_space
trim_space-trim_left s = ap trim_right (trim_left_idem s)

pub trim_space-trim_right : (s : Bytes) → trim_space (trim_right s) ≡ trim_space s
unfolding trim_space
trim_space-trim_right s = rw trim_left-trim_right (trim_right_idem (trim_left s))

pub trim_space-IsTrimmed : (s : Bytes) → IsTrimmed (trim_space s)
unfolding trim_space
trim_space-IsTrimmed s = record {
  left = trim_left-trim_right (trim_left s) ∙ ap trim_right (trim_left_idem s);
  right = trim_right_idem (trim_left s);
}

pub trim_space_of_IsTrimmed : {s : Bytes} → IsTrimmed s → trim_space s ≡ s
unfolding trim_space
trim_space_of_IsTrimmed t = ap trim_right t.left ∙ t.right

pub trim_space_idem : (s : Bytes) → trim_space (trim_space s) ≡ trim_space s
trim_space_idem s = trim_space_of_IsTrimmed (trim_space-IsTrimmed s)

module _ (e : ℕ) (solid : is_space e ≡ false) where
  pub trim_left-append : (a b : Bytes) → trim_left (a ++ e ∷ b) ≡ trim_left a ++ e ∷ b
  unfolding trim_left
  trim_left-append [] b = rw solid
  trim_left-append (c ∷ a) b = ground (arith, trim_left-append a b)

  pub trim_right-append : (a b : Bytes) → trim_right (a ++ e ∷ b) ≡ a ++ e ∷ trim_right b
  unfolding trim_right
  trim_right-append [] b = ground arith
  trim_right-append (c ∷ []) b = rw (trim_right-append [] b)
  trim_right-append (c ∷ d ∷ a) b = rw (trim_right-append (d ∷ a) b)

  -- A byte that is no white space keeps the trims of its two sides apart.
  pub trim_space-append : (a b : Bytes) → trim_space (a ++ e ∷ b) ≡ trim_left a ++ e ∷ trim_right b
  unfolding trim_space
  trim_space-append a b = ap trim_right (trim_left-append a b) ∙ trim_right-append (trim_left a) b

pub trim_left-Blank : (b s : Bytes) → Blank b → trim_left (b ++ s) ≡ trim_left s
unfolding trim_left
trim_left-Blank [] s h = refl
trim_left-Blank (c ∷ b) s (hc, hb) = rw hc (trim_left-Blank b s hb)

trim_right-Blank-nil : (b : Bytes) → Blank b → trim_right b ≡ []
unfolding trim_right
trim_right-Blank-nil [] h = refl
trim_right-Blank-nil (c ∷ b) (hc, hb) = rw (trim_right-Blank-nil b hb, hc)

pub trim_right-Blank : (s b : Bytes) → Blank b → trim_right (s ++ b) ≡ trim_right s
unfolding trim_right
trim_right-Blank [] b h = trim_right-Blank-nil b h
trim_right-Blank (c ∷ s) b h = rw (trim_right-Blank s b h)

-- White space around a trimmed text is all that a trim removes.
pub trim_space-pad :
    (before s after : Bytes)
    → Blank before
    → IsTrimmed s
    → Blank after
    → trim_space (before ++ (s ++ after)) ≡ s
trim_space-pad before s after hb t ha =
    unfold trim_space in
    ap trim_right (trim_left-Blank before (s ++ after) hb)
    ∙ sym (trim_left-trim_right (s ++ after))
    ∙ ap trim_left (trim_right-Blank s after ha ∙ t.right)
    ∙ t.left
