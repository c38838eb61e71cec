-- ===== src/MtaTls/Chain.antt =====
-- internal/probe/mtatls: the certificates that a server presents. `VerifyChain` and `TLSVersionName`
-- of dialer.go, and `matchTLSA` of mtatls.go.
pub mod Match
use mailsec_probe.Common.{
  length, ltb, ◌==◌, if◌then◌else◌, ℕ, suc, ◌+◌, ◌-◌, ◌/◌, ◌%◌, Bool, true, false, ◌&&◌, Option,
  none, some, List, [], ◌∷◌, ◌++◌,
}
use mailsec_probe.DnsClient.{TlsaRecord}
use mailsec_probe.MtaTls.{Certificate, Crypto}
use mailsec_probe.Text.{Bytes, codes, trim_suffix}

-- `VerifyChain`. A name without its final dot is what the leaf is verified for.
abbrev verified : Option Bytes → Bool × Bytes
verified none = (true, [])
verified (some e) = (false, e)

unfoldable pub verify_chain : Crypto → List Certificate → Bytes → Bool × Bytes
unfolding trim_suffix
verify_chain crypto [] mx_host = (false, codes "no peer certificates")
verify_chain crypto (leaf ∷ rest) mx_host =
    verified (crypto.verify leaf rest (trim_suffix mx_host (codes ".")))

-- The verb `%04x` on a 16-bit number.
abbrev hex_digit : ℕ → ℕ
hex_digit n = if ltb n 10 then b'0' + n else b'a' + (n - 10)

abbrev hex4 : ℕ → Bytes
hex4 n =
    hex_digit (n / 4096 % 16)
    ∷ hex_digit (n / 256 % 16)
    ∷ hex_digit (n / 16 % 16)
    ∷ hex_digit (n % 16)
    ∷ []

-- The constants of crypto/tls are 0x0301 to 0x0304.
unfoldable pub tls_version_name : ℕ → Bytes
tls_version_name v =
    if v == 769
    then codes "TLS 1.0"
    else if v == 770
    then codes "TLS 1.1"
    else if v == 771
    then codes "TLS 1.2"
    else if v == 772
    then codes "TLS 1.3"
    else codes "0x" ++ hex4 v

-- What a TLSA record selects of the leaf, and the digest of that; `none` where the loop continues.
abbrev source_of : ℕ → Certificate → Option Bytes
source_of selector leaf =
    if selector == 0 then some leaf.raw else if selector == 1 then some leaf.raw_spki else none

abbrev digest_of : Crypto → ℕ → Bytes → Option Bytes
digest_of crypto matching_type source =
    if matching_type == 0
    then some source
    else if matching_type == 1
    then some (crypto.sha256 source)
    else if matching_type == 2
    then some (crypto.sha512 source)
    else none

-- `bytesEqual`: the lengths first, and then each byte.
bytes_equal_from : Bytes → Bytes → Bool
bytes_equal_from [] b = true
bytes_equal_from (x ∷ a) [] = true
bytes_equal_from (x ∷ a) (y ∷ b) = x == y && bytes_equal_from a b

unfoldable pub bytes_equal : Bytes → Bytes → Bool
unfolding bytes_equal_from
bytes_equal a b = length a == length b && bytes_equal_from a b

abbrev equals : Option Bytes → Bytes → Bool
equals none association = false
equals (some digest) association = bytes_equal digest association

abbrev digested : Crypto → ℕ → Option Bytes → Option Bytes
digested crypto matching_type none = none
digested crypto matching_type (some source) = digest_of crypto matching_type source

-- One round of the loop.
unfoldable pub matches : Crypto → Certificate → TlsaRecord → Bool
unfolding bytes_equal
matches crypto leaf rec =
    equals (digested crypto rec.matching_type (source_of rec.selector leaf)) rec.payload

-- The index of the first match, `none` for -1.
abbrev next_index : Option ℕ → Option ℕ
next_index none = none
next_index (some i) = some (suc i)

unfoldable pub first_match : Crypto → Certificate → List TlsaRecord → Option ℕ
unfolding matches
first_match crypto leaf [] = none
first_match crypto leaf (rec ∷ records) =
    let later = next_index (first_match crypto leaf records) in
    if matches crypto leaf rec then some 0 else later

unfoldable pub match_tlsa : Crypto → List TlsaRecord → List Certificate → Option ℕ
unfolding first_match
match_tlsa crypto records [] = none
match_tlsa crypto records (leaf ∷ chain) = first_match crypto leaf records
