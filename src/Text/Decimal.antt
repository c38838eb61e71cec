-- ===== src/Text/Decimal.antt =====
-- The verb `%d` of Go's fmt: what it prints.
use mailsec_probe.Common.{
  All, ◌==◌, Bool-cases, ℕ, zero, suc, ◌+◌, ◌/◌, ◌%◌, ◌≤◌, ◌≡◌, refl, inl, inr, [], ◌∷◌, arith,
}
use mailsec_probe.Text.{Bytes, is_space, trim_left, trim_right, trim_space, digits, decimal}
use mailsec_probe.Text.Trim.{trim_space_of_IsTrimmed}

-- A decimal digit.
abbrev pub IsDigit : ℕ → Type 0
IsDigit c = (b'0' ≤ c) × (c ≤ b'9')

digits-IsDigit : (fuel n : ℕ) (out : Bytes) → All IsDigit out → All IsDigit (digits fuel n out)
unfolding digits
digits-IsDigit zero n out h = h
digits-IsDigit (suc fuel) n out h = elim (Bool-cases (n == 0)) [
  | inl none_left ↦ rw none_left h
  | inr more ↦
      rw more (digits-IsDigit fuel (n / 10) ((b'0' + n % 10) ∷ out) ((omega arith, omega arith), h))
]

pub decimal-IsDigit : (n : ℕ) → All IsDigit (decimal n)
unfolding decimal
decimal-IsDigit n = elim (Bool-cases (n == 0)) [
  | inl nothing ↦ rw nothing ((omega arith, omega arith), tt)
  | inr positive ↦ rw positive (digits-IsDigit n n [] tt)
]

trim_left-digits : (s : Bytes) → All IsDigit s → trim_left s ≡ s
unfolding trim_left is_space
trim_left-digits [] h = refl
trim_left-digits (c ∷ s) ((low, high), h) = ground (arith, low)

trim_right-digits : (s : Bytes) → All IsDigit s → trim_right s ≡ s
unfolding trim_right is_space
trim_right-digits [] h = refl
trim_right-digits (c ∷ []) ((low, high), h) = ground (arith, low)
trim_right-digits (c ∷ d ∷ s) (_, h) = rw (trim_right-digits (d ∷ s) h)

pub trim_space-decimal : (n : ℕ) → trim_space (decimal n) ≡ decimal n
trim_space-decimal n = trim_space_of_IsTrimmed (record {
  left = trim_left-digits (decimal n) (decimal-IsDigit n);
  right = trim_right-digits (decimal n) (decimal-IsDigit n);
})
