-- ===== src/DnsClient/Hex.antt =====
-- `hexDecode` and `hexNibble` of internal/probe/dnsclient/dnsclient.go: the certificate field of a
-- TLSA record, as hexadecimal text.
pub mod RoundTrip
use mailsec_probe.Common.{
  leb, ◌==◌, if◌then◌else◌, ℕ, ◌+◌, ◌-◌, ◌*◌, Bool, ◌&&◌, ◌||◌, Option, none, some, [], ◌∷◌,
}
use mailsec_probe.Text.{Bytes}

unfoldable pub hex_nibble : ℕ → Option ℕ
hex_nibble c =
    if leb b'0' c && leb c b'9'
    then some (c - b'0')
    else if leb b'a' c && leb c b'f'
    then some (c - b'a' + 10)
    else if leb b'A' c && leb c b'F'
    then some (c - b'A' + 10)
    else none

abbrev is_blank : ℕ → Bool
is_blank c = c == b' ' || c == b'\t' || c == b'\n' || c == b'\r'

-- The first loop.
clean : Bytes → Bytes
clean [] = []
clean (c ∷ s) = if is_blank c then clean s else c ∷ clean s

abbrev pair_up : Option ℕ → Option ℕ → Option Bytes → Option Bytes
pair_up (some hi) (some lo) (some out) = some ((hi * 16 + lo) ∷ out)
pair_up _ _ _ = none

-- The second loop, two digits at a time; an odd length is an error. `hi<<4 | lo` is hi * 16 + lo,
-- since both are below 16.
decode_pairs : Bytes → Option Bytes
unfolding hex_nibble
decode_pairs [] = some []
decode_pairs (c ∷ []) = none
decode_pairs (c ∷ d ∷ s) = pair_up (hex_nibble c) (hex_nibble d) (decode_pairs s)

-- The texts of the errors are left out: the callers do not look at them.
unfoldable pub hex_decode : Bytes → Option Bytes
unfolding clean decode_pairs
hex_decode s = decode_pairs (clean s)
