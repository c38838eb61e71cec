-- ===== src/Dmarc/Reports.antt =====
-- `checkRUAReachability` of internal/probe/dmarc/dmarc.go: which report addresses are probed, and
-- what is recorded of them.
use mailsec_probe.Dmarc.{
  RuaEndpoint, scheme_of, unchecked, head_result, probe_endpoint, check_uri, check_uris,
  check_rua_reachability,
}
use mailsec_probe.HttpFetcher.{Fetcher}
use mailsec_probe.Text.{Bytes, codes, str_eq, is_empty, trim_space, split}
use mailsec_probe.Text.Cut.{Lacks, split-All-Lacks, trim_space-Lacks}
use mailsec_probe.Text.Trim.{IsTrimmed, trim_space-IsTrimmed}
use mailsec_probe.Common.{
  ℕ, ◌≤◌, ◌<◌, ◌≡◌, refl, ◌≢◌, ◌↔◌, Bool, true, Option, none, some, [], All, Bool-cases, inl, inr,
  false, ◌&&◌, List, ◌∷◌, arith,
}
use mailsec_probe.Text.Match.{str_eq_iff, is_empty-false}
use mailsec_probe.Dmarc.Schemes.{HasScheme, scheme_of-mailto, scheme_of-https, scheme_of-http}

-- An endpoint is probed only where the check is on, there is a fetcher and the address is https.
abbrev pub MayProbe : Option Fetcher → Bool → RuaEndpoint → Type 0
MayProbe fetcher enabled ep =
    (enabled ≡ true) × (fetcher ≢ none) × HasScheme (codes "https:") ep.uri

pub record IsChecked (fetcher : Option Fetcher) (enabled : Bool) (ep : RuaEndpoint) : Type 0 where
  pub uri_trimmed : IsTrimmed ep.uri
  pub uri_nonempty : ep.uri ≢ []
  pub uri_lacks : Lacks b',' ep.uri
  pub mailto : (ep.scheme ≡ codes "mailto") ↔ HasScheme (codes "mailto:") ep.uri
  pub https : (ep.scheme ≡ codes "https") ↔ HasScheme (codes "https:") ep.uri
  pub http : (ep.scheme ≡ codes "http") ↔ HasScheme (codes "http:") ep.uri
  pub probed : (ep.checked ≡ true) ↔ MayProbe fetcher enabled ep
  pub mailto_unprobed : HasScheme (codes "mailto:") ep.uri → ep.checked ≡ false
  pub reached :
      ep.reachable ≡ true
      → (ep.checked ≡ true) × (200 ≤ ep.status) × (ep.status < 400) × (ep.err ≡ [])

head_result-checked : (ep : RuaEndpoint) (r : ℕ × Option Bytes) → (head_result ep r).checked ≡ true
head_result-checked ep (status, some e) = refl
head_result-checked ep (status, none) = refl

probe_endpoint-checked :
    (enabled : Bool) (fetcher : Option Fetcher) (uri : Bytes)
    → ((probe_endpoint enabled fetcher (unchecked uri)).checked ≡ true)
      ↔ ((enabled ≡ true) × (fetcher ≢ none) × (scheme_of uri ≡ codes "https"))
probe_endpoint-checked enabled none uri =
    ((λ h. cc), λ (_, some_fetcher, _). absurd (some_fetcher refl))
probe_endpoint-checked enabled (some f) uri =
    let ready = enabled && str_eq (scheme_of uri) (codes "https") in
    elim (Bool-cases ready) [
      | inl go ↦ rw go (
        (λ _. (
          ground arith,
          (λ e. cc),
          (str_eq_iff (scheme_of uri) (codes "https")).0 (ground arith),
        )),
        λ _. head_result-checked (unchecked uri) (f.head uri),
      )
      | inr stop ↦ rw stop (
        (λ h. cc),
        λ (on, _, https).
            cc (rw (on, (str_eq_iff (scheme_of uri) (codes "https")).1 https) at stop),
      )
    ]

probe_endpoint-probed :
    (enabled : Bool) (fetcher : Option Fetcher) (uri : Bytes)
    → ((probe_endpoint enabled fetcher (unchecked uri)).checked ≡ true)
      ↔ ((enabled ≡ true) × (fetcher ≢ none) × HasScheme (codes "https:") uri)
probe_endpoint-probed enabled fetcher uri =
    let checked = probe_endpoint-checked enabled fetcher uri in
    let https = scheme_of-https uri in
    (
      (λ h. let (on, there, scheme) = checked.0 h in (on, there, https.0 scheme)),
      λ (on, there, begins). checked.1 (on, there, https.1 begins),
    )

probe_endpoint-mailto :
    (enabled : Bool) (fetcher : Option Fetcher) (uri : Bytes)
    → HasScheme (codes "mailto:") uri
    → (probe_endpoint enabled fetcher (unchecked uri)).checked ≡ false
probe_endpoint-mailto enabled fetcher uri begins =
    elim (Bool-cases (probe_endpoint enabled fetcher (unchecked uri)).checked) [
      | inl checked ↦
          let (on, there, scheme) = (probe_endpoint-checked enabled fetcher uri).0 checked in
          let other = (scheme_of-mailto uri).1 begins in absurd (cc (other, scheme))
      | inr unchecked_too ↦ unchecked_too
    ]

head_result-reached :
    (ep : RuaEndpoint) (r : ℕ × Option Bytes)
    → ep.err ≡ []
    → (head_result ep r).reachable ≡ true
    → ((head_result ep r).checked ≡ true)
      × (200 ≤ (head_result ep r).status)
      × ((head_result ep r).status < 400)
      × ((head_result ep r).err ≡ [])
head_result-reached ep (status, some e) clean h = cc
head_result-reached ep (status, none) clean h = ground arith

probe_endpoint-reached :
    (enabled : Bool) (fetcher : Option Fetcher) (uri : Bytes)
    → let ep = probe_endpoint enabled fetcher (unchecked uri) in
      ep.reachable ≡ true
      → (ep.checked ≡ true) × (200 ≤ ep.status) × (ep.status < 400) × (ep.err ≡ [])
probe_endpoint-reached enabled none uri = λ h. cc
probe_endpoint-reached enabled (some f) uri =
    elim (Bool-cases (enabled && str_eq (scheme_of uri) (codes "https"))) [
      | inl go ↦ rw go (head_result-reached (unchecked uri) (f.head uri) refl)
      | inr stop ↦ rw stop (λ h. cc)
    ]

head_result-names :
    (ep : RuaEndpoint) (r : ℕ × Option Bytes)
    → ((head_result ep r).uri ≡ ep.uri) × ((head_result ep r).scheme ≡ ep.scheme)
head_result-names ep (status, some e) = (refl, refl)
head_result-names ep (status, none) = (refl, refl)

probe_endpoint-names :
    (enabled : Bool) (fetcher : Option Fetcher) (ep : RuaEndpoint)
    → ((probe_endpoint enabled fetcher ep).uri ≡ ep.uri)
      × ((probe_endpoint enabled fetcher ep).scheme ≡ ep.scheme)
probe_endpoint-names enabled none ep = (refl, refl)
probe_endpoint-names enabled (some f) ep = ground (arith, head_result-names ep (f.head ep.uri))

probe_endpoint-IsChecked :
    (fetcher : Option Fetcher) (enabled : Bool) (uri : Bytes)
    → IsTrimmed uri
    → is_empty uri ≡ false
    → Lacks b',' uri
    → IsChecked fetcher enabled (probe_endpoint enabled fetcher (unchecked uri))
probe_endpoint-IsChecked fetcher enabled uri trimmed solid lacks =
    let (same_uri, same_scheme) = probe_endpoint-names enabled fetcher (unchecked uri) in
    record {
      uri_trimmed = rw same_uri trimmed;
      uri_nonempty = rw same_uri (is_empty-false uri solid);
      uri_lacks = rw same_uri lacks;
      mailto = rw (same_uri, same_scheme) (scheme_of-mailto uri);
      https = rw (same_uri, same_scheme) (scheme_of-https uri);
      http = rw (same_uri, same_scheme) (scheme_of-http uri);
      probed = rw same_uri (probe_endpoint-probed enabled fetcher uri);
      mailto_unprobed = rw same_uri (probe_endpoint-mailto enabled fetcher uri);
      reached = probe_endpoint-reached enabled fetcher uri;
    }

check_uris-IsChecked :
    (raws : List Bytes) (fetcher : Option Fetcher) (enabled : Bool)
    → All (Lacks b',') raws
    → All (IsChecked fetcher enabled) (check_uris raws fetcher enabled)
unfolding check_uris check_uri
check_uris-IsChecked [] fetcher enabled h = tt
check_uris-IsChecked (raw ∷ raws) fetcher enabled h =
    let rest = check_uris-IsChecked raws fetcher enabled h.1 in
    elim (Bool-cases (is_empty (trim_space raw))) [
      | inl blank ↦ rw blank rest
      | inr solid ↦ rw solid (
        probe_endpoint-IsChecked fetcher enabled (trim_space raw) (trim_space-IsTrimmed raw) solid
            (trim_space-Lacks b',' raw h.0),
        rest,
      )
    ]

-- Every endpoint of the result has a URI that is not empty, with no comma and no white space at its
-- ends, and its scheme is mailto, https or http exactly when the URI begins so, in any letter case.
-- It was probed exactly when the check is on, a fetcher is there and the URI begins with "https:",
-- and never when it begins with "mailto:". It is reachable only if it was probed, without an error
-- and with a status from 200 to 399.
pub check_rua_reachability-IsChecked :
    (rua_value : Bytes) (fetcher : Option Fetcher) (enabled : Bool)
    → All (IsChecked fetcher enabled) (check_rua_reachability rua_value fetcher enabled)
unfolding check_rua_reachability
check_rua_reachability-IsChecked rua_value fetcher enabled =
    check_uris-IsChecked (split rua_value b',') fetcher enabled (split-All-Lacks rua_value b',')

module _ (f g : Fetcher)
    (agree : (uri : Bytes) → scheme_of uri ≡ codes "https" → f.head uri ≡ g.head uri) where
  check_uri-agree :
      (enabled : Bool) (raw : Bytes)
      → check_uri (some f) enabled raw ≡ check_uri (some g) enabled raw
  unfolding check_uri
  check_uri-agree enabled raw =
      let uri = trim_space raw in
      elim (Bool-cases (enabled && str_eq (scheme_of uri) (codes "https"))) [
        | inl go ↦
            rw (go, agree uri ((str_eq_iff (scheme_of uri) (codes "https")).0 (ground arith)))
        | inr stop ↦ rw stop
      ]

  check_uris-agree :
      (enabled : Bool) (raws : List Bytes)
      → check_uris raws (some f) enabled ≡ check_uris raws (some g) enabled
  unfolding check_uris
  check_uris-agree enabled [] = refl
  check_uris-agree enabled (raw ∷ raws) =
      rw (check_uri-agree enabled raw, check_uris-agree enabled raws)

  -- The endpoints depend on the answers to https addresses alone: two fetchers that answer these
  -- alike give one result, whatever they answer elsewhere.
  pub check_rua_reachability-agree :
      (rua_value : Bytes) (enabled : Bool)
      → check_rua_reachability rua_value (some f) enabled
        ≡ check_rua_reachability rua_value (some g) enabled
  unfolding check_rua_reachability
  check_rua_reachability-agree rua_value enabled = check_uris-agree enabled (split rua_value b',')
