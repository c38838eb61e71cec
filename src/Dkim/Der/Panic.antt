-- ===== src/Dkim/Der/Panic.antt =====
-- `parseRSAModulusBits` of internal/probe/dkim/dkim.go on texts with a length of eight bytes.
use mailsec_probe.Common.{
  length, take, drop, ℕ, ◌+◌, ◌≤◌, ◌<◌, ◌≡◌, refl, ap, [], ◌∷◌, ◌++◌, arith, length-append, ◌∙◌,
}
use mailsec_probe.Dkim.Der.{int_max, be_value, take_integer, walk, parse_rsa_modulus_bits}
use mailsec_probe.Outcome.{Outcome, panicked}
use mailsec_probe.Text.{Bytes}
use mailsec_probe.Text.Cut.{Lacks}

walk-Lacks :
    (n i : ℕ) (before rest : Bytes)
    → Lacks 2 before
    → walk n i (before ++ rest) ≡ walk n (i + length before) rest
unfolding walk
walk-Lacks n i [] rest h = ap (λ k. walk n k rest) (omega arith)
walk-Lacks n i (c ∷ before) rest h =
    let step = walk-Lacks n (i + 1) before rest h.1 in
    let shift : i + 1 + length before ≡ i + length (c ∷ before) = omega arith in
    ground (arith, rw shift at step)

drop-all : (s : Bytes) → drop (length s) s ≡ []
drop-all [] = refl
drop-all (c ∷ s) = drop-all s

take-all : (s : Bytes) → take (length s) s ≡ s
take-all [] = refl
take-all (c ∷ s) = ap (◌∷◌ c) (take-all s)

-- An INTEGER tag, a length of eight bytes and nothing behind it: if the sum of the length and of the
-- place behind it is at least 2 ^ 63, the check `off+l > len(der)` is passed by overflow.
take_integer-panics :
    (n i : ℕ) (len8 : Bytes) (next : Outcome ℕ)
    → length len8 ≡ 8
    → n ≡ i + 10
    → n ≤ int_max
    → 64 ≤ be_value 0 len8
    → be_value 0 len8 ≤ int_max
    → int_max < n + be_value 0 len8
    → take_integer n i (0x88 ∷ len8) next ≡ panicked
unfolding take_integer
take_integer-panics n i len8 next eight place small big low over =
    let back : drop 8 len8 ≡ [] = rw (← eight) (drop-all len8) in
    let front : take 8 len8 ≡ len8 = rw (← eight) (take-all len8) in rw (front, back) (ground arith)

-- The walk panics on every text that ends in an INTEGER tag and a length of eight bytes, with no
-- byte 2 before it, where the text's length is an `int`, and the length read is positive as an `int`,
-- at least 64, and overflows when the place behind it is added.
pub parse_rsa_modulus_bits-panics :
    (before len8 : Bytes)
    → Lacks 2 before
    → length len8 ≡ 8
    → length before + 10 ≤ int_max
    → 64 ≤ be_value 0 len8
    → be_value 0 len8 ≤ int_max
    → int_max < length before + 10 + be_value 0 len8
    → parse_rsa_modulus_bits (before ++ 2 ∷ 0x88 ∷ len8) ≡ panicked
unfolding parse_rsa_modulus_bits walk
parse_rsa_modulus_bits-panics before len8 lacks eight fits big low over =
    let n = length (before ++ 2 ∷ 0x88 ∷ len8) in
    let size : n ≡ length before + 10 = omega (arith, length-append before (2 ∷ 0x88 ∷ len8)) in
    walk-Lacks n 0 before (2 ∷ 0x88 ∷ len8) lacks
    ∙ take_integer-panics n (0 + length before) len8 (walk n (0 + length before + 1) (0x88 ∷ len8))
        eight (omega arith) (omega arith) big low (omega arith)
