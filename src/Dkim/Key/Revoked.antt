-- ===== src/Dkim/Key/Revoked.antt =====
-- `parseKey` of internal/probe/dkim/dkim.go: the revocation of a key, and the keys that can be read.
use mailsec_probe.Common.{
  Bool-cases, ℕ, ◌≡◌, refl, ◌∙◌, inl, inr, Bool, false, List, [], ◌∷◌, arith, length, ltb,
  if◌then◌else◌, ◌≤◌, true, Option, none, some, ◌↔◌,
}
use mailsec_probe.Dkim.Key.{
  Key, rsa_key_size, strip, parse_key, sized, set_public, decode_base64, size_by_length,
  is_positive, size_of, blank_key,
}
use mailsec_probe.Outcome.{Outcome, returned, panicked, >>=-eq-returned}
use mailsec_probe.Text.{Bytes, codes, str_eq, is_empty}
use mailsec_probe.TxtTag.{Pair, get}
use mailsec_probe.Dkim.Der.{parse_rsa_modulus_bits}
use mailsec_probe.Dkim.Der.Safe.{IsShort, IsSize, max_len, parse_rsa_modulus_bits-IsSize}
use mailsec_probe.Text.Match.{is_empty_iff}

sized-revoked :
    (k : Key) (size : Outcome ℕ) {k' : Key} → sized k size ≡ returned k' → k'.revoked ≡ k.revoked
sized-revoked k (returned n) h = ground arith
sized-revoked k panicked h = cc

set_public-revoked :
    (k : Key) (p : Bytes) {k' : Key}
    → set_public k p ≡ returned k'
    → k.revoked ≡ false
    → k'.revoked ≡ is_empty p
set_public-revoked k [] h e = ground arith
set_public-revoked k (c ∷ p) h e = elim (Bool-cases (str_eq k.key_type (codes "rsa"))) [
  | inl rsa ↦
      let clean = strip (c ∷ p) in
      sized-revoked (record k { public_key = clean }) (rsa_key_size clean) (rw rsa at h) ∙ e
  | inr other ↦ ground arith
]

pub parse_key-revoked :
    (selector raw : Bytes) (pairs : List Pair) (include_raw : Bool) {k : Key}
    → parse_key selector raw pairs include_raw ≡ returned k
    → k.revoked ≡ is_empty (get pairs (codes "p"))
unfolding parse_key
parse_key-revoked selector raw pairs include_raw {k} h =
    let (k', e, f) = >>=-eq-returned _ _ h in
    let same : k.revoked ≡ k'.revoked = cc in
    same ∙ set_public-revoked (blank_key selector pairs) (get pairs (codes "p")) e refl

-- The public part, where it is base64, decodes to at most 2 ^ 60 bytes, none of which is a 2 before a
-- byte of 0x88 or more.
abbrev pub IsReadable : List Pair → Type 0
IsReadable pairs =
    (der : Bytes)
    → decode_base64 (strip (get pairs (codes "p"))) ≡ some der
    → (length der ≤ max_len) × IsShort der

size-returns : (n : ℕ) (o : Outcome ℕ) → IsSize n o → (bits : ℕ) × (o ≡ returned bits)
size-returns n (returned bits) h = (bits, refl)
size-returns n panicked h = absurd h

size_of-returns :
    (n : ℕ) (decoded : Option Bytes)
    → ((der : Bytes) → decoded ≡ some der → (length der ≤ max_len) × IsShort der)
    → (size : ℕ) × (size_of n decoded ≡ returned size)
size_of-returns n none safe = (0, refl)
size_of-returns n (some der) safe =
    let (fits, short) = safe der refl in
    let (bits, e) =
      size-returns (length der) (parse_rsa_modulus_bits der)
        (parse_rsa_modulus_bits-IsSize der fits short) in
    ((if is_positive bits then bits else size_by_length n), rw e)

set_public-returns :
    (k : Key) (p : Bytes)
    → ((der : Bytes) → decode_base64 (strip p) ≡ some der → (length der ≤ max_len) × IsShort der)
    → (k' : Key) × (set_public k p ≡ returned k')
set_public-returns k [] safe = (record k { revoked = true }, refl)
set_public-returns k (c ∷ p) safe =
    let clean = strip (c ∷ p) in
    let k' = record k { public_key = clean } in
    elim (Bool-cases (str_eq k.key_type (codes "rsa"))) [
      | inl rsa ↦
          let (n, e) = size_of-returns (length clean) (decode_base64 clean) safe in
          (
            (if ltb 0 n then record k' { key_size = n } else k'),
            rw rsa (unfold rsa_key_size in rw e),
          )
      | inr other ↦ (k', rw other)
    ]

pub parse_key-returns :
    (selector raw : Bytes) (pairs : List Pair) (include_raw : Bool)
    → IsReadable pairs
    → (k : Key) × (parse_key selector raw pairs include_raw ≡ returned k)
unfolding parse_key
parse_key-returns selector raw pairs include_raw safe =
    let (k', e) = set_public-returns (blank_key selector pairs) (get pairs (codes "p")) safe in
    (record k' { raw = if include_raw then raw else [] }, rw e)

-- If the public part, where it is base64, decodes to at most 2 ^ 60 bytes, none of which is a 2 before
-- a byte of 0x88 or more, then `parseKey` returns a key, and the key is revoked exactly when the record's value of "p" is empty or missing.
pub parse_key-IsReadable :
    (selector raw : Bytes) (pairs : List Pair) (include_raw : Bool)
    → IsReadable pairs
    → (k : Key) × (parse_key selector raw pairs include_raw ≡ returned k)
      × ((k.revoked ≡ true) ↔ (get pairs (codes "p") ≡ []))
parse_key-IsReadable selector raw pairs include_raw safe =
    let (k, e) = parse_key-returns selector raw pairs include_raw safe in
    let same = parse_key-revoked selector raw pairs include_raw e in
    (k, e, rw same (is_empty_iff (get pairs (codes "p"))))
