-- ===== src/DnsClient/Doh/Preference.antt =====
-- `decodeMXPresentation` of internal/probe/dnsclient/doh.go: reading an MX record back.
use mailsec_probe.Common.{
  ◌==◌, Bool-cases, ℕ, zero, suc, ◌+◌, ◌/◌, ◌%◌, ◌≤◌, ◌≡◌, ap, inl, inr, ◌∷◌, arith, leb, ◌-◌, ◌*◌,
  true, some, ◌<◌, ◌≢◌, [], ◌++◌, refl, false,
}
use mailsec_probe.Text.{Bytes, digits, decimal, codes, trim_suffix, is_empty}
use mailsec_probe.DnsClient.Doh.{parse_digits, parse_uint16, add_digit, decode_mx_presentation}
use mailsec_probe.Text.Cut.{cut-append, decimal-Lacks}
use mailsec_probe.Text.Decimal.{trim_space-decimal}
use mailsec_probe.Text.Trim.{IsTrimmed, trim_space_of_IsTrimmed}

add_digit-last : (n : ℕ) → n ≤ 65535 → add_digit (n / 10) (b'0' + n % 10) ≡ some n
add_digit-last n small =
    let low : leb b'0' (b'0' + n % 10) ≡ true = ground arith in
    let high : leb (b'0' + n % 10) b'9' ≡ true = ground arith in
    let same : n / 10 * 10 + (b'0' + n % 10 - b'0') ≡ n = omega arith in
    let fits : leb n 65535 ≡ true = ground arith in rw (low, high, same, fits)

parse_digits-digits :
    (fuel n : ℕ) (out : Bytes)
    → n ≤ fuel
    → n ≤ 65535
    → parse_digits 0 (digits fuel n out) ≡ parse_digits n out
unfolding digits parse_digits
parse_digits-digits zero n out enough small = ap (λ m. parse_digits m out) (omega (arith, enough))
parse_digits-digits (suc fuel) n out enough small = elim (Bool-cases (n == 0)) [
  | inl none_left ↦ rw none_left (ap (λ m. parse_digits m out) (ground arith))
  | inr more ↦
      rw
        (
          more,
          parse_digits-digits fuel (n / 10) ((b'0' + n % 10) ∷ out) (ground arith) (omega arith),
        )
        (rw (add_digit-last n small))
]

parse_uint16-pos : (s : Bytes) (n : ℕ) → 0 < n → parse_digits 0 s ≡ some n → parse_uint16 s ≡ some n
unfolding parse_uint16 parse_digits
parse_uint16-pos [] n positive h = absurd (ground arith)
parse_uint16-pos (c ∷ s) n positive h = h

pub parse_uint16-decimal : (n : ℕ) → n ≤ 65535 → parse_uint16 (decimal n) ≡ some n
unfolding parse_uint16 decimal parse_digits
parse_uint16-decimal n small = elim (Bool-cases (n == 0)) [
  | inl nothing ↦ rw nothing (ground arith)
  | inr positive ↦ rw positive (
      parse_uint16-pos (digits n n []) n (ground arith)
        (parse_digits-digits n n [] (omega arith) small))
]

solid-decimal : (n : ℕ) → n ≤ 65535 → is_empty (decimal n) ≡ false
unfolding parse_uint16
solid-decimal n small = go (decimal n) (parse_uint16-decimal n small)
  where
    go : (s : Bytes) → parse_uint16 s ≡ some n → is_empty s ≡ false
    go [] h = cc
    go (c ∷ s) h = refl

solid-trim_suffix : (s p : Bytes) → trim_suffix s p ≢ [] → is_empty s ≡ false
unfolding trim_suffix
solid-trim_suffix [] p solid = absurd (solid (ground arith))
solid-trim_suffix (c ∷ s) p solid = refl

solid-IsEmpty : (s : Bytes) → s ≢ [] → is_empty s ≡ false
solid-IsEmpty [] solid = absurd (solid refl)
solid-IsEmpty (c ∷ s) solid = refl

-- The presentation form: the preference, a space and the exchange.
abbrev pub present_mx : ℕ → Bytes → Bytes
present_mx preference exchange = decimal preference ++ b' ' ∷ exchange

-- `decodeMXPresentation` gives the preference and the exchange, less one final dot, back from their
-- presentation form, for a 16-bit preference and an exchange without white space at its ends that is
-- not the root.
pub decode_mx-present_mx :
    (preference : ℕ) (exchange : Bytes)
    → preference ≤ 65535
    → IsTrimmed exchange
    → trim_suffix exchange (codes ".") ≢ []
    → decode_mx_presentation (present_mx preference exchange)
      ≡ some (record { host = trim_suffix exchange (codes "."); preference = preference })
unfolding decode_mx_presentation
decode_mx-present_mx preference exchange small trimmed named = rw (
  cut-append (decimal preference) exchange b' ' (decimal-Lacks b' ' preference (omega arith)),
  trim_space-decimal preference,
  parse_uint16-decimal preference small,
  trim_space_of_IsTrimmed trimmed,
  solid-decimal preference small,
  solid-trim_suffix exchange (codes ".") named,
  solid-IsEmpty (trim_suffix exchange (codes ".")) named,
)
