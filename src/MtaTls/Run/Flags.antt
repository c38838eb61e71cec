-- ===== src/MtaTls/Run/Flags.antt =====
-- The flags of the loops in `Run` of internal/probe/mtatls/mtatls.go, over a sequential visit of the
-- hosts, and the null MX.
use mailsec_probe.MtaTls.Run.{Probe, dial_host}
use mailsec_probe.Common.{
  All, Some, ℕ, ◌≡◌, refl, ◌≢◌, ◌↔◌, true, Option, none, some, List, [], ◌∷◌, map, arith, sym, ap,
  subst,
}
use mailsec_probe.DnsClient.{TlsaRecord, TlsaResult}
use mailsec_probe.MtaTls.{Crypto}
use mailsec_probe.MtaTls.Chain.Match.{HasFirst}
use mailsec_probe.MtaTls.Features.{
  tlsa_name, any_connect, all_accepted, any_tlsa, dane_of, publishes, all_match,
}
use mailsec_probe.MtaTls.Run.Sequential.{visit}
use mailsec_probe.Text.{Bytes}
use mathlib.Core.List.{cons-ne-nil}
use mailsec_probe.MtaTls.Features.Matched.{matched_iff}

-- The connection to the host is opened, and STARTTLS is accepted there.
abbrev pub Connected : Probe → Bytes → Type 0
Connected p h = (dial_host p h).connected ≡ true

abbrev pub Accepted : Probe → Bytes → Type 0
Accepted p h = (dial_host p h).starttls_accepted ≡ true

-- The TLSA lookup of the host finds a record.
abbrev pub Publishes : Probe → Bytes → Type 0
Publishes p h =
    (tlsa : TlsaResult) × (p.dns.lookup_tlsa (tlsa_name h) ≡ (tlsa, none)) × (tlsa.records ≢ [])

-- It finds one that matches the certificate that the host presents.
abbrev pub Authenticated : Crypto → Probe → Bytes → Type 0
Authenticated crypto p h =
    (tlsa : TlsaResult) × (p.dns.lookup_tlsa (tlsa_name h) ≡ (tlsa, none))
    × ((i : ℕ) × HasFirst crypto tlsa.records (dial_host p h).peer_certificates i)

pub any_connect_iff :
    (crypto : Crypto) (p : Probe) (hosts : List Bytes)
    → (any_connect (map (visit crypto p) hosts) ≡ true) ↔ Some (Connected p) hosts
unfolding any_connect
any_connect_iff crypto p [] = ((λ h. absurd cc), λ s. absurd s)
any_connect_iff crypto p (h ∷ hosts) = ground (arith, any_connect_iff crypto p hosts)

pub all_accepted_iff :
    (crypto : Crypto) (p : Probe) (hosts : List Bytes)
    → (all_accepted (map (visit crypto p) hosts) ≡ true) ↔ All (Accepted p) hosts
unfolding all_accepted
all_accepted_iff crypto p [] = ((λ _. tt), λ _. refl)
all_accepted_iff crypto p (h ∷ hosts) = ground (arith, all_accepted_iff crypto p hosts)

-- A lookup that has no error is the pair of its result and no error.
answered_iff :
    {A : Type 0} {P : A → Type 0} (a : A × Option Bytes)
    → ((a.1 ≡ none) × P a.0) ↔ ((r : A) × (a ≡ (r, none)) × P r)
answered_iff {P = P} (r, e) = (
  (λ (n, x). (r, ap (λ o. (r, o)) n, x)),
  λ (q, same, x). (ap (λ a. a.1) same, subst P (sym (ap (λ a. a.0) same)) x),
)

publishes_iff :
    (records : List TlsaRecord) (e : Option Bytes)
    → (publishes records e ≡ true) ↔ ((e ≡ none) × (records ≢ []))
publishes_iff [] e = ((λ h. absurd cc), λ (_, solid). absurd (solid refl))
publishes_iff (rec ∷ records) none = ((λ _. (refl, cons-ne-nil rec records)), λ _. refl)
publishes_iff (rec ∷ records) (some e) = ((λ h. absurd cc), λ (h, _). absurd cc)

Publishes-iff :
    (crypto : Crypto) (p : Probe) (h : Bytes)
    → (publishes (visit crypto p h).looked.tlsa.records (visit crypto p h).looked.tlsa_err ≡ true)
      ↔ Publishes p h
Publishes-iff crypto p h =
    let found = p.dns.lookup_tlsa (tlsa_name h) in
    let m = publishes_iff found.0.records found.1 in
    let a = answered_iff {P = λ tlsa. tlsa.records ≢ []} found in
    ((λ x. a.0 (m.0 x)), λ x. m.1 (a.1 x))

pub any_tlsa_iff :
    (crypto : Crypto) (p : Probe) (hosts : List Bytes)
    → (any_tlsa (map (visit crypto p) hosts) ≡ true) ↔ Some (Publishes p) hosts
unfolding any_tlsa
any_tlsa_iff crypto p [] = ((λ h. absurd cc), λ s. absurd s)
any_tlsa_iff crypto p (h ∷ hosts) =
    let here = Publishes-iff crypto p h in ground (arith, here, any_tlsa_iff crypto p hosts)

Authenticated-iff :
    (crypto : Crypto) (p : Probe) (h : Bytes)
    → ((dane_of crypto (visit crypto p h)).matched ≡ true) ↔ Authenticated crypto p h
Authenticated-iff crypto p h =
    let m = matched_iff crypto (visit crypto p h) in
    let a =
      answered_iff
        {P = λ tlsa. (i : ℕ) × HasFirst crypto tlsa.records (dial_host p h).peer_certificates i}
        (p.dns.lookup_tlsa (tlsa_name h)) in
    ((λ x. a.0 (m.0 x)), λ x. m.1 (a.1 x))

pub all_match_iff :
    (crypto : Crypto) (p : Probe) (hosts : List Bytes)
    → (all_match crypto (map (visit crypto p) hosts) ≡ true) ↔ All (Authenticated crypto p) hosts
unfolding all_match
all_match_iff crypto p [] = ((λ _. tt), λ _. refl)
all_match_iff crypto p (h ∷ hosts) =
    let here = Authenticated-iff crypto p h in ground (arith, here, all_match_iff crypto p hosts)
