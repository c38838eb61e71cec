-- ===== src/DnsClient/Doh/MxForm.antt =====
-- The MX records that the client of internal/probe/dnsclient/doh.go returns.
use mailsec_probe.DnsClient.Doh.{
  decode_mx_presentation, mx_records, Rr, mx_of, mx_of_halves, parse_uint16, parse_digits, is_mx,
  new_doh, Resolver, type_mx, mx_answer, Response,
}
use mailsec_probe.Common.{
  All, leb, Bool-cases, Option-cases, ℕ, ◌+◌, ◌-◌, ◌*◌, ◌≤◌, ◌≡◌, refl, subst, ◌≢◌, inl, inr, ◌&&◌,
  ◌||◌, Option, none, some, List, [], ◌∷◌, arith,
}
use mailsec_probe.DnsClient.{MxRecord}
use mailsec_probe.Text.{Bytes, is_empty, trim_space, cut}
use mathlib.Core.List.{cons-ne-nil}

abbrev pub IsNamed : MxRecord → Type 0
IsNamed r = (r.host ≢ []) × (r.preference ≤ 65535)

parse_digits-le : (n : ℕ) (s : Bytes) {m : ℕ} → n ≤ 65535 → parse_digits n s ≡ some m → m ≤ 65535
unfolding parse_digits
parse_digits-le n [] h e = ground arith
parse_digits-le n (c ∷ s) h e =
    let k = n * 10 + (c - b'0') in
    elim (Bool-cases (leb b'0' c && leb c b'9' && leb k 65535)) [
      | inl good ↦ parse_digits-le k s (ground arith) (rw good at e)
      | inr bad ↦ cc (rw bad at e)
    ]

parse_uint16-le : (s : Bytes) {m : ℕ} → parse_uint16 s ≡ some m → m ≤ 65535
unfolding parse_uint16
parse_uint16-le [] e = cc
parse_uint16-le (c ∷ s) e = parse_digits-le 0 (c ∷ s) (omega arith) e

mx_of-IsNamed :
    (pref : Option ℕ) (host : Bytes) {r : MxRecord}
    → ((m : ℕ) → pref ≡ some m → m ≤ 65535)
    → mx_of pref host ≡ some r
    → IsNamed r
mx_of-IsNamed none host small e = cc
mx_of-IsNamed (some pref) [] small e = cc
mx_of-IsNamed (some pref) (c ∷ host) {r} small e =
    let same : record { host = c ∷ host; preference = pref } ≡ r = cc in
    subst IsNamed same (cons-ne-nil c host, small pref refl)

mx_of_halves-IsNamed :
    (halves : Option (Bytes × Bytes)) {r : MxRecord} → mx_of_halves halves ≡ some r → IsNamed r
mx_of_halves-IsNamed none e = cc
mx_of_halves-IsNamed (some (pref, exchange)) e =
    elim (Bool-cases (is_empty pref || is_empty exchange)) [
      | inl bad ↦ cc (rw bad at e)
      | inr good ↦
          mx_of-IsNamed (parse_uint16 (trim_space pref)) _
            (λ m k. parse_uint16-le (trim_space pref) k) (rw good at e)
    ]

decode_mx-IsNamed : (s : Bytes) {r : MxRecord} → decode_mx_presentation s ≡ some r → IsNamed r
unfolding decode_mx_presentation
decode_mx-IsNamed s e = mx_of_halves-IsNamed (cut s b' ') e

mx_records-IsNamed : (rrs : List Rr) → All IsNamed (mx_records rrs)
unfolding mx_records
mx_records-IsNamed [] = tt
mx_records-IsNamed (rr ∷ rrs) = elim (Bool-cases (is_mx rr.rr_type)) [
  | inl here ↦ elim (Option-cases (decode_mx_presentation rr.value)) [
    | inl bad ↦ rw (here, bad) (mx_records-IsNamed rrs)
    | inr (r, good) ↦ rw (here, good) (decode_mx-IsNamed rr.value good, mx_records-IsNamed rrs)
  ]
  | inr gone ↦ rw gone (mx_records-IsNamed rrs)
]

-- No MX record that the DoH client returns has an empty host, and the preferences fit in 16 bits,
-- whatever the resolver answers.
pub new_doh-IsNamed :
    (r : Resolver) (domain : Bytes) → All IsNamed ((new_doh r).lookup_mx domain).0.records
unfolding new_doh
new_doh-IsNamed r domain = go (r domain type_mx)
  where
    go : (answer : Response × Option Bytes) → All IsNamed (mx_answer answer).0.records
    go (resp, some e) = tt
    go (resp, none) = mx_records-IsNamed resp.records
