-- ===== src/Dkim/Key.antt =====
-- `parseKey` and `rsaKeySize` of internal/probe/dkim/dkim.go: one key from the pairs of its record.
pub mod Revoked
use mailsec_probe.Common.{
  length, ltb, leb, ◌==◌, if◌then◌else◌, ℕ, ◌+◌, ◌-◌, ◌*◌, ◌/◌, ◌%◌, Bool, true, false, not, ◌&&◌,
  ◌||◌, Option, none, some, List, [], ◌∷◌,
}
use mailsec_probe.Dkim.Der.{is_negative, parse_rsa_modulus_bits}
use mailsec_probe.Outcome.{Outcome, returned, ◌>>=◌}
use mailsec_probe.Text.{Bytes, codes, str_eq, is_empty}
use mailsec_probe.TxtTag.{Pair, get}

pub record Key : Type 0 where
  pub selector : Bytes
  pub key_type : Bytes
  pub key_size : ℕ
  pub flags : Bytes
  pub service : Bytes
  pub revoked : Bool
  pub public_key : Bytes
  pub raw : Bytes

-- `base64.StdEncoding.DecodeString`, on a text with no line breaks: groups of four characters, the
-- last of which may be padded by "=". The unused bits of a padded group are not looked at.
abbrev sextet : ℕ → Option ℕ
sextet c =
    if leb b'A' c && leb c b'Z'
    then some (c - b'A')
    else if leb b'a' c && leb c b'z'
    then some (c - b'a' + 26)
    else if leb b'0' c && leb c b'9'
    then some (c - b'0' + 52)
    else if c == b'+'
    then some 62
    else if c == b'/'
    then some 63
    else none

abbrev group1 : Option ℕ → Option ℕ → Option Bytes
group1 (some a) (some b) = some ((a * 4 + b / 16) ∷ [])
group1 _ _ = none

abbrev group2 : Option ℕ → Option ℕ → Option ℕ → Option Bytes
group2 (some a) (some b) (some c) = some ((a * 4 + b / 16) ∷ (b % 16 * 16 + c / 4) ∷ [])
group2 _ _ _ = none

abbrev group3 : Option ℕ → Option ℕ → Option ℕ → Option ℕ → Option Bytes → Option Bytes
group3 (some a) (some b) (some c) (some d) (some rest) =
    some ((a * 4 + b / 16) ∷ (b % 16 * 16 + c / 4) ∷ (c % 4 * 64 + d) ∷ rest)
group3 _ _ _ _ _ = none

unfoldable pub decode_base64 : Bytes → Option Bytes
decode_base64 [] = some []
decode_base64 (a ∷ b ∷ c ∷ d ∷ s) =
    let rest = decode_base64 s in
    if c == b'='
    then (if d == b'=' && is_empty s then group1 (sextet a) (sextet b) else none)
    else if d == b'='
    then (if is_empty s then group2 (sextet a) (sextet b) (sextet c) else none)
    else group3 (sextet a) (sextet b) (sextet c) (sextet d) rest
decode_base64 _ = none

-- The fallback by the encoded length.
abbrev size_by_length : ℕ → ℕ
size_by_length n =
    if ltb 700 n then 4096 else if ltb 380 n then 2048 else if ltb 200 n then 1024 else 0

-- `bits > 0` on a bit pattern.
abbrev is_positive : ℕ → Bool
is_positive bits = ltb 0 bits && not (is_negative bits)

abbrev size_of : ℕ → Option Bytes → Outcome ℕ
size_of n none = returned 0
size_of n (some der) = parse_rsa_modulus_bits der >>= λ bits.
    returned (if is_positive bits then bits else size_by_length n)

unfoldable pub rsa_key_size : Bytes → Outcome ℕ
unfolding decode_base64 parse_rsa_modulus_bits
rsa_key_size b64 = size_of (length b64) (decode_base64 b64)

-- `strings.Map` with the function that drops white space.
unfoldable pub strip : Bytes → Bytes
strip [] = []
strip (c ∷ s) = if c == b' ' || c == b'\t' || c == b'\n' || c == b'\r' then strip s else c ∷ strip s

abbrev sized : Key → Outcome ℕ → Outcome Key
sized k size = size >>= λ n. returned (if ltb 0 n then record k { key_size = n } else k)

-- The branch on the value of "p".
abbrev set_public : Key → Bytes → Outcome Key
set_public k [] = returned (record k { revoked = true })
set_public k (c ∷ p) =
    let clean = strip (c ∷ p) in
    let k' = record k { public_key = clean } in
    if str_eq k.key_type (codes "rsa") then sized k' (rsa_key_size clean) else returned k'

abbrev or_default : Bytes → Bytes → Bytes
or_default v default = if is_empty v then default else v

-- The fields that are set before the public part is looked at.
abbrev blank_key : Bytes → List Pair → Key
blank_key selector pairs = record {
  selector = selector;
  key_type = or_default (get pairs (codes "k")) (codes "rsa");
  key_size = 0;
  flags = get pairs (codes "t");
  service = get pairs (codes "s");
  revoked = false;
  public_key = [];
  raw = [];
}

unfoldable pub parse_key : Bytes → Bytes → List Pair → Bool → Outcome Key
unfolding get strip str_eq rsa_key_size
parse_key selector raw pairs include_raw =
    set_public (blank_key selector pairs) (get pairs (codes "p")) >>= λ key.
    returned (record key { raw = if include_raw then raw else [] })
