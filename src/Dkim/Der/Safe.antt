-- ===== src/Dkim/Der/Safe.antt =====
-- `parseRSAModulusBits` of internal/probe/dkim/dkim.go on texts with short lengths.
use mailsec_probe.Common.{
  length, All, ℕ, suc, ◌+◌, ◌*◌, ◌%◌, ◌^◌, ◌≤◌, ◌<◌, ◌≡◌, ◌⊎◌, [], ◌∷◌, arith, take, drop, ltb, leb,
  ◌==◌, ==_iff, Bool-cases, zero, ◌-◌, refl, subst, inl, inr, ◌||◌,
}
use mailsec_probe.Outcome.{Outcome, returned, panicked}
use mailsec_probe.Text.{Bytes}
use mailsec_probe.Dkim.Der.{
  be_value, int_mod, parse_rsa_modulus_bits, take_value, take_long, take_integer, walk, too_small,
  too_long, modulus_bits,
}
use native.Mathlib.Nat.{pow-le-pow_right, pow-suc}

-- The text holds bytes, and behind each byte 2 stands one below 0x88.
abbrev pub IsShort : Bytes → Type 0
IsShort [] = Unit
IsShort (tag ∷ []) = tag < 256
IsShort (tag ∷ l ∷ rest) = (tag < 256) × (tag ≡ 2 → l < 0x88) × IsShort (l ∷ rest)

-- Nothing was found, or a size of at least 504 bits, in whole bytes, that fits in `n` bytes.
abbrev pub IsSize : ℕ → Outcome ℕ → Type 0
IsSize n panicked = ⊥
IsSize n (returned bits) = (bits % 8 ≡ 0) × (bits ≤ 8 * n) × ((bits ≡ 0) ⊎ (504 ≤ bits))

be_value-lt :
    (bs : Bytes) (j l : ℕ)
    → j + length bs ≤ 7
    → l < 256 ^ j
    → All (λ b. b < 256) bs
    → be_value l bs < 256 ^ 7
unfolding be_value
be_value-lt [] j l h k a =
    omega (arith, pow-le-pow_right {n = 256} (omega arith) {i = j} {j = 7} (omega arith))
be_value-lt (b ∷ bs) j l h k a =
    be_value-lt bs (suc j) ((l * 256 + b) % int_mod) (omega arith)
      (omega (arith, pow-suc 256 j, a.0)) a.1

IsShort-All : (s : Bytes) → IsShort s → All (λ b. b < 256) s
IsShort-All [] h = tt
IsShort-All (tag ∷ []) h = (h, tt)
IsShort-All (tag ∷ l ∷ rest) h = (h.0, IsShort-All (l ∷ rest) h.2)

All-take : (P : ℕ → Type 0) (n : ℕ) (s : Bytes) → All P s → All P (take n s)
All-take P zero s h = tt
All-take P (suc n) [] h = tt
All-take P (suc n) (c ∷ s) h = (h.0, All-take P n s h.1)

length-take-le : (n : ℕ) (s : Bytes) → length (take n s) ≤ n
length-take-le zero s = omega arith
length-take-le (suc n) [] = omega arith
length-take-le (suc n) (c ∷ s) = omega (arith, length-take-le n s)

length-drop : (n : ℕ) (s : Bytes) → length (drop n s) ≡ length s - n
length-drop zero s = omega arith
length-drop (suc n) [] = omega arith
length-drop (suc n) (c ∷ s) = omega (arith, length-drop n s)

-- A text of this length has a size in bits that is an `int`.
abbrev pub max_len : ℕ
max_len = 2 ^ 60

modulus_bits-IsSize :
    (n l first : ℕ) → 64 ≤ l → l ≤ n → n ≤ max_len → IsSize n (returned (modulus_bits l first))
modulus_bits-IsSize n l first big low fits = elim (Bool-cases (first == 0)) [
  | inl padded ↦ rw padded (omega arith, omega arith, inr (omega arith))
  | inr full ↦ rw full (omega arith, omega arith, inr (omega arith))
]

take_value-IsSize :
    (n off l : ℕ) (body : Bytes) (next : Outcome ℕ)
    → off + length body ≡ n
    → n ≤ max_len
    → l < 256 ^ 7
    → IsSize n next
    → IsSize n (take_value n off l body next)
unfolding take_value
take_value-IsSize n off l [] next place fits small h =
    elim (Bool-cases (too_small l || too_long n off l)) [
      | inl skip ↦ rw skip h
      | inr go ↦ absurd (ground arith)
    ]
take_value-IsSize n off l (first ∷ s) next place fits small h =
    elim (Bool-cases (too_small l || too_long n off l)) [
      | inl skip ↦ rw skip h
      | inr go ↦ rw go (modulus_bits-IsSize n l first (ground arith) (ground arith) fits)
    ]

take_long-IsSize :
    (n off count : ℕ) (body : Bytes) (next : Outcome ℕ)
    → off + length body ≡ n
    → n ≤ max_len
    → count ≤ 7
    → All (λ b. b < 256) body
    → IsSize n next
    → IsSize n (take_long n off count body next)
unfolding take_long
take_long-IsSize n off count body next place fits short bytes h =
    elim (Bool-cases (count == 0 || ltb n (off + count))) [
      | inl skip ↦ rw skip h
      | inr go ↦ rw go (
          take_value-IsSize n (off + count) (be_value 0 (take count body)) (drop count body) next
            (ground (arith, length-drop count body)) fits
            (be_value-lt (take count body) 0 0 (omega (arith, length-take-le count body))
              (omega arith) (All-take (λ b. b < 256) count body bytes))
            h)
    ]

take_integer-IsSize :
    (n i : ℕ) (rest : Bytes) (next : Outcome ℕ)
    → suc (i + length rest) ≡ n
    → n ≤ max_len
    → IsShort (2 ∷ rest)
    → IsSize n next
    → IsSize n (take_integer n i rest next)
unfolding take_integer
take_integer-IsSize n i [] next place fits short h = (omega arith, omega arith, inl refl)
take_integer-IsSize n i (l ∷ body) next place fits short h = elim (Bool-cases (leb 128 l)) [
  | inl long ↦ rw long (
      take_long-IsSize n (i + 2) (l % 128) body next (omega arith) fits
        (ground (arith, short.1 refl)) (IsShort-All (l ∷ body) short.2).1 h)
  | inr one ↦
      rw one
        (take_value-IsSize n (i + 2) l body next (omega arith) fits (omega (arith, short.1 refl)) h)
]

IsShort-tail : (tag : ℕ) (rest : Bytes) → IsShort (tag ∷ rest) → IsShort rest
IsShort-tail tag [] h = tt
IsShort-tail tag (l ∷ rest) h = h.2

walk-IsSize :
    (n i : ℕ) (s : Bytes) → i + length s ≡ n → n ≤ max_len → IsShort s → IsSize n (walk n i s)
unfolding walk
walk-IsSize n i [] place fits short = (omega arith, omega arith, inl refl)
walk-IsSize n i (tag ∷ rest) place fits short =
    let next = walk-IsSize n (i + 1) rest (omega arith) fits (IsShort-tail tag rest short) in
    elim (Bool-cases (tag == 2)) [
      | inl integer ↦
          let e = (==_iff tag 2).0 integer in
          rw integer (
            take_integer-IsSize n i rest (walk n (i + 1) rest) (omega arith) fits
              (subst (λ t. IsShort (t ∷ rest)) e short) next)
      | inr other ↦ rw other next
    ]

-- On a text of at most 2 ^ 60 bytes in which no byte 2 is followed by a byte of 0x88 or more, so that
-- no length takes more than seven bytes, the walk does not panic: it returns 0, or a number of bits
-- that is a multiple of 8, at least 504 and at most the bits of the text.
pub parse_rsa_modulus_bits-IsSize :
    (der : Bytes)
    → length der ≤ max_len
    → IsShort der
    → IsSize (length der) (parse_rsa_modulus_bits der)
unfolding parse_rsa_modulus_bits
parse_rsa_modulus_bits-IsSize der fits short =
    walk-IsSize (length der) 0 der (omega arith) fits short
