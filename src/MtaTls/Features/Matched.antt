-- ===== src/MtaTls/Features/Matched.antt =====
-- `Run` of internal/probe/mtatls/mtatls.go: when the DANE result of one host says that it matched.
use mailsec_probe.DnsClient.{TlsaRecord}
use mailsec_probe.FanOut.{listed}
use mailsec_probe.MtaTls.{Certificate, Crypto}
use mailsec_probe.MtaTls.Chain.{match_tlsa}
use mailsec_probe.MtaTls.Chain.Match.{HasFirst, match_tlsa_iff}
use mailsec_probe.MtaTls.Features.{Seen, dane_of, with_match, dane_listed, dane_looked}
use mailsec_probe.Text.{Bytes}
use mailsec_probe.Common.{ℕ, ◌≡◌, refl, ◌↔◌, true, Option, none, some, List, [], ◌∷◌}

listed_iff :
    (h : Bytes) (listed records : List TlsaRecord) (o : Option ℕ)
    → ((with_match (dane_listed h listed) records o).matched ≡ true) ↔ ((i : ℕ) × (o ≡ some i))
listed_iff h listed records none = ((λ m. absurd cc), λ (i, e). absurd cc)
listed_iff h listed records (some i) = ((λ _. (i, refl)), λ _. refl)

dane_looked_iff :
    (crypto : Crypto) (h : Bytes) (chain : List Certificate) (records : List TlsaRecord)
    (e : Option Bytes)
    → ((dane_looked crypto h chain records e).matched ≡ true)
      ↔ ((e ≡ none) × ((i : ℕ) × HasFirst crypto records chain i))
dane_looked_iff crypto h chain records (some e) = ((λ m. absurd cc), λ (n, _). absurd cc)
dane_looked_iff crypto h chain [] none =
    ((λ m. absurd cc), λ (_, (i, (leaf, rest, e, f))). let here = f.here in absurd cc)
dane_looked_iff crypto h chain (rec ∷ records) none =
    let found =
      listed_iff h (rec ∷ records) (rec ∷ records) (match_tlsa crypto (rec ∷ records) chain) in
    let first = match_tlsa_iff crypto (rec ∷ records) chain in
    (
      (λ m. let (i, e) = found.0 m in (refl, (i, (first i).0 e))),
      λ (_, (i, f)). found.1 (i, (first i).1 f),
    )

-- The lookup of the host has no error, and its records have a first match.
pub matched_iff :
    (crypto : Crypto) (s : Seen)
    → ((dane_of crypto s).matched ≡ true) ↔ (
        (s.looked.tlsa_err ≡ none)
        × ((i : ℕ) × HasFirst crypto s.looked.tlsa.records s.dialled.peer_certificates i))
matched_iff crypto s =
    dane_looked_iff crypto s.host s.dialled.peer_certificates s.looked.tlsa.records
      s.looked.tlsa_err
