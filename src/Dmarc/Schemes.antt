-- ===== src/Dmarc/Schemes.antt =====
-- `schemeOf` of internal/probe/dmarc/dmarc.go, against the beginning of the address.
use mailsec_probe.Dmarc.{scheme_of}
use mailsec_probe.Text.{Bytes, codes, to_lower, has_prefix}
use mailsec_probe.Text.Match.{has_prefix_sound}
use mailsec_probe.Common.{◌≡◌, ◌↔◌, true, ◌++◌, arith}

-- The address begins with a scheme, in any letter case.
abbrev pub HasScheme : Bytes → Bytes → Type 0
HasScheme scheme uri = (rest : Bytes) × (to_lower uri ≡ scheme ++ rest)

HasScheme-has_prefix :
    (scheme uri : Bytes) → has_prefix (to_lower uri) scheme ≡ true → HasScheme scheme uri
HasScheme-has_prefix scheme uri h = has_prefix_sound (to_lower uri) scheme h

pub scheme_of-mailto :
    (uri : Bytes) → (scheme_of uri ≡ codes "mailto") ↔ HasScheme (codes "mailto:") uri
unfolding scheme_of has_prefix
scheme_of-mailto uri =
    ((λ h. HasScheme-has_prefix (codes "mailto:") uri (ground arith)), λ (rest, e). rw e)

pub scheme_of-https :
    (uri : Bytes) → (scheme_of uri ≡ codes "https") ↔ HasScheme (codes "https:") uri
unfolding scheme_of has_prefix
scheme_of-https uri =
    ((λ h. HasScheme-has_prefix (codes "https:") uri (ground arith)), λ (rest, e). rw e)

pub scheme_of-http : (uri : Bytes) → (scheme_of uri ≡ codes "http") ↔ HasScheme (codes "http:") uri
unfolding scheme_of has_prefix
scheme_of-http uri =
    ((λ h. HasScheme-has_prefix (codes "http:") uri (ground arith)), λ (rest, e). rw e)
