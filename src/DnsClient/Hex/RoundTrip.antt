-- ===== src/DnsClient/Hex/RoundTrip.antt =====
-- `hexDecode` of internal/probe/dnsclient/dnsclient.go: reading hexadecimal text back.
use mailsec_probe.DnsClient.Hex.{hex_nibble, hex_decode, clean, decode_pairs, is_blank}
use mailsec_probe.Common.{
  All, ltb, if◌then◌else◌, ℕ, ◌+◌, ◌-◌, ◌/◌, ◌%◌, ◌<◌, ◌≡◌, refl, ap, Bool, true, false, some, List,
  [], ◌∷◌, ◌++◌, map, arith,
}
use mailsec_probe.Text.{Bytes}

abbrev pub hex_digit : Bool → ℕ → ℕ
hex_digit upper n =
    if ltb n 10 then b'0' + n else if upper then b'A' + (n - 10) else b'a' + (n - 10)

-- Two digits for each byte, behind the blanks that stand before it.
pub print_hex : Bool → List (Bytes × ℕ) → Bytes
print_hex upper [] = []
print_hex upper ((gap, b) ∷ bs) =
    gap ++ hex_digit upper (b / 16) ∷ hex_digit upper (b % 16) ∷ print_hex upper bs

abbrev pub IsSpaced : Bytes × ℕ → Type 0
IsSpaced (gap, b) = All (λ c. is_blank c ≡ true) gap × (b < 256)

hex_nibble-hex_digit :
    (upper : Bool) (n : ℕ)
    → n < 16
    → (hex_nibble (hex_digit upper n) ≡ some n) × (is_blank (hex_digit upper n) ≡ false)
unfolding hex_nibble
hex_nibble-hex_digit true n h = ground arith
hex_nibble-hex_digit false n h = ground arith

clean-append : (gap s : Bytes) → All (λ c. is_blank c ≡ true) gap → clean (gap ++ s) ≡ clean s
unfolding clean
clean-append [] s h = refl
clean-append (c ∷ gap) s h = rw h.0 (clean-append gap s h.1)

decode_pairs-clean :
    (upper : Bool) (bs : List (Bytes × ℕ))
    → All IsSpaced bs
    → decode_pairs (clean (print_hex upper bs)) ≡ some (map (λ b. b.1) bs)
unfolding decode_pairs clean print_hex
decode_pairs-clean upper [] h = refl
decode_pairs-clean upper ((gap, b) ∷ bs) ((blank, small), h) =
    let high = hex_nibble-hex_digit upper (b / 16) (omega (arith, small)) in
    let low = hex_nibble-hex_digit upper (b % 16) (omega arith) in
    rw (clean-append gap _ blank, high.1, low.1, high.0, low.0, decode_pairs-clean upper bs h)
      (ap (λ n. some (n ∷ map (λ b. b.1) bs)) (omega arith))

-- `hexDecode` reads back what is printed for a list of bytes, with digits in upper or in lower case
-- and any blanks before each byte.
pub hex_decode-print_hex :
    (upper : Bool) (bs : List (Bytes × ℕ))
    → All IsSpaced bs
    → hex_decode (print_hex upper bs) ≡ some (map (λ b. b.1) bs)
unfolding hex_decode
hex_decode-print_hex upper bs h = decode_pairs-clean upper bs h
