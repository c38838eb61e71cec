-- ===== src/Text/Cut.antt =====
-- Laws of `Cut`, `Split` and `Join` at one byte.
use mailsec_probe.Common.{
  ℕ, none, some, List, [], ◌∷◌, ◌++◌, ◌≡◌, ◌≢◌, refl, ap, ◌∙◌, arith, All, ◌==◌, Bool-cases, zero,
  suc, ◌+◌, ◌/◌, ◌%◌, ◌<◌, inl, inr,
}
use mailsec_probe.Text.{Bytes, cut, split, join, trim_left, trim_right, trim_space, decimal, digits}

abbrev pub Lacks : ℕ → Bytes → Type 0
Lacks b = All (λ c. c ≢ b)

pub cut-Lacks : (s : Bytes) (sep : ℕ) → Lacks sep s → cut s sep ≡ none
unfolding cut
cut-Lacks [] sep h = refl
cut-Lacks (c ∷ s) sep (hc, hs) = ground (arith, cut-Lacks s sep hs)

-- A cut is made at the first separator.
pub cut-append : (a b : Bytes) (sep : ℕ) → Lacks sep a → cut (a ++ sep ∷ b) sep ≡ some (a, b)
unfolding cut
cut-append [] b sep h = ground arith
cut-append (c ∷ a) b sep (hc, ha) = ground (arith, cut-append a b sep ha)

pub cut-none : (s : Bytes) (sep : ℕ) → cut s sep ≡ none → Lacks sep s
unfolding cut
cut-none [] sep h = tt
cut-none (c ∷ s) sep h = (ground arith, cut-none s sep (ground arith))

pub cut-some :
    (s : Bytes) (sep : ℕ) {a b : Bytes} → cut s sep ≡ some (a, b) → (s ≡ a ++ sep ∷ b) × Lacks sep a
unfolding cut
cut-some [] sep h = cc
cut-some (c ∷ s) sep {a = []} {b} h = ground arith
cut-some (c ∷ s) sep {a = d ∷ a} {b} h = ground (arith, cut-some s sep {a = a} {b = b})

split-Lacks : (s : Bytes) (sep : ℕ) → Lacks sep s → split s sep ≡ s ∷ []
unfolding split
split-Lacks [] sep h = refl
split-Lacks (c ∷ s) sep (hc, hs) = ground (arith, split-Lacks s sep hs)

pub split-append :
    (a b : Bytes) (sep : ℕ) → Lacks sep a → split (a ++ sep ∷ b) sep ≡ a ∷ split b sep
unfolding split
split-append [] b sep h = ground arith
split-append (c ∷ a) b sep (hc, ha) = ground (arith, split-append a b sep ha)

-- No part of a split holds the separator.
pub split-All-Lacks : (s : Bytes) (sep : ℕ) → All (Lacks sep) (split s sep)
unfolding split
split-All-Lacks [] sep = (tt, tt)
split-All-Lacks (c ∷ s) sep = ground (arith, split-All-Lacks s sep)

pub split-join :
    (ps : List Bytes) (sep : ℕ) → ps ≢ [] → All (Lacks sep) ps → split (join ps (sep ∷ [])) sep ≡ ps
unfolding join
split-join [] sep ne h = absurd (ne refl)
split-join (p ∷ []) sep ne h = split-Lacks p sep h.0
split-join (p ∷ q ∷ ps) sep ne h =
    split-append p (join (q ∷ ps) (sep ∷ [])) sep h.0
    ∙ ap (◌∷◌ p) (split-join (q ∷ ps) sep (λ e. cc) h.1)

pub trim_left-Lacks : (b : ℕ) (s : Bytes) → Lacks b s → Lacks b (trim_left s)
unfolding trim_left
trim_left-Lacks b [] h = tt
trim_left-Lacks b (c ∷ s) h = ground (arith, trim_left-Lacks b s)

trim_right-Lacks : (b : ℕ) (s : Bytes) → Lacks b s → Lacks b (trim_right s)
unfolding trim_right
trim_right-Lacks b [] h = tt
trim_right-Lacks b (c ∷ s) h = ground (arith, trim_right-Lacks b s)

pub trim_space-Lacks : (b : ℕ) (s : Bytes) → Lacks b s → Lacks b (trim_space s)
unfolding trim_space
trim_space-Lacks b s h = trim_right-Lacks b (trim_left s) (trim_left-Lacks b s h)

digits-Lacks : (b fuel n : ℕ) (out : Bytes) → b < b'0' → Lacks b out → Lacks b (digits fuel n out)
unfolding digits
digits-Lacks b zero n out small h = h
digits-Lacks b (suc fuel) n out small h = elim (Bool-cases (n == 0)) [
  | inl done ↦ rw done h
  | inr more ↦ rw more (
      digits-Lacks b fuel (n / 10) ((b'0' + n % 10) ∷ out) small
        ((λ e. absurd (omega (arith, e, small))), h))
]

-- A number holds no byte below the digits.
pub decimal-Lacks : (b n : ℕ) → b < b'0' → Lacks b (decimal n)
unfolding decimal
decimal-Lacks b n small = elim (Bool-cases (n == 0)) [
  | inl nought ↦ rw nought ((λ e. absurd (omega (arith, e, small))), tt)
  | inr more ↦ rw more (digits-Lacks b n n [] small tt)
]

pub Lacks-append : (b : ℕ) (s t : Bytes) → Lacks b s → Lacks b t → Lacks b (s ++ t)
Lacks-append b [] t h k = k
Lacks-append b (c ∷ s) t h k = (h.0, Lacks-append b s t h.1 k)

pub join-Lacks :
    (b sep : ℕ) (ps : List Bytes) → sep ≢ b → All (Lacks b) ps → Lacks b (join ps (sep ∷ []))
unfolding join
join-Lacks b sep [] ne h = tt
join-Lacks b sep (p ∷ []) ne h = h.0
join-Lacks b sep (p ∷ q ∷ ps) ne h =
    Lacks-append b p (sep ∷ join (q ∷ ps) (sep ∷ [])) h.0 (ne, join-Lacks b sep (q ∷ ps) ne h.1)
