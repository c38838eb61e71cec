-- ===== src/Dkim/Der.antt =====
-- `parseRSAModulusBits` of internal/probe/dkim/dkim.go: a walk through a DER text to the first
-- INTEGER that may be a modulus. An `int` is 64 bits wide and is held as its bit pattern, a number
-- below 2 ^ 64; a pattern of 2 ^ 63 or more is negative. The texts are slices, so their lengths are
-- below 2 ^ 63.
pub mod Safe
pub mod Panic
use mailsec_probe.Common.{
  length, take, drop, ltb, leb, ◌==◌, if◌then◌else◌, ℕ, ◌+◌, ◌-◌, ◌*◌, ◌%◌, ◌^◌, Bool, not, ◌&&◌,
  ◌||◌, [], ◌∷◌,
}
use mailsec_probe.Outcome.{Outcome, returned, panicked}
use mailsec_probe.Text.{Bytes}

abbrev pub int_mod : ℕ
int_mod = 2 ^ 64

abbrev pub int_max : ℕ
int_max = 2 ^ 63 - 1

abbrev pub is_negative : ℕ → Bool
is_negative x = ltb int_max x

-- `l < 64`.
abbrev too_small : ℕ → Bool
too_small l = is_negative l || ltb l 64

-- `off+l > len(der)`, with the wrap of the sum.
abbrev too_long : ℕ → ℕ → ℕ → Bool
too_long n off l = let sum = (off + l) % int_mod in not (is_negative sum) && ltb n sum

-- The bytes of a long length, most significant first: `l = l<<8 | int(b)`.
unfoldable pub be_value : ℕ → Bytes → ℕ
be_value l [] = l
be_value l (b ∷ bs) = be_value ((l * 256 + b) % int_mod) bs

abbrev modulus_bits : ℕ → ℕ → ℕ
modulus_bits l first = ((if first == 0 then l - 1 else l) * 8) % int_mod

-- `der[off]` panics behind the end.
abbrev read_first : ℕ → Bytes → Outcome ℕ
read_first l [] = panicked
read_first l (first ∷ s) = returned (modulus_bits l first)

-- `off` is the place of `body` in the text of length `n`, and `next` the rest of the loop.
take_value : ℕ → ℕ → ℕ → Bytes → Outcome ℕ → Outcome ℕ
take_value n off l body next = if too_small l || too_long n off l then next else read_first l body

take_long : ℕ → ℕ → ℕ → Bytes → Outcome ℕ → Outcome ℕ
unfolding take_value be_value
take_long n off count body next =
    if count == 0 || ltb n (off + count)
    then next
    else take_value n (off + count) (be_value 0 (take count body)) (drop count body) next

-- Behind an INTEGER tag at `i`.
take_integer : ℕ → ℕ → Bytes → Outcome ℕ → Outcome ℕ
unfolding take_value take_long
take_integer n i [] next = returned 0
take_integer n i (l ∷ body) next =
    if leb 128 l then take_long n (i + 2) (l % 128) body next else take_value n (i + 2) l body next

walk : ℕ → ℕ → Bytes → Outcome ℕ
unfolding take_integer
walk n i [] = returned 0
walk n i (tag ∷ rest) =
    let next = walk n (i + 1) rest in if tag == 2 then take_integer n i rest next else next

unfoldable pub parse_rsa_modulus_bits : Bytes → Outcome ℕ
unfolding walk
parse_rsa_modulus_bits der = walk (length der) 0 der
