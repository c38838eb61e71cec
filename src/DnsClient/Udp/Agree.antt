-- ===== src/DnsClient/Udp/Agree.antt =====
-- The clients of internal/probe/dnsclient/dnsclient.go and doh.go: over UDP and over HTTPS.
use mailsec_probe.Common.{
  All, Option-cases, ℕ, ◌≤◌, ◌≡◌, refl, ap, ◌≢◌, ◌⊎◌, inl, inr, false, Option, none, some, List, [],
  ◌∷◌, ◌++◌, map, append-nil,
}
use mailsec_probe.DnsClient.{TlsaRecord, Client}
use mailsec_probe.DnsClient.Doh.{
  RrType, type_txt, type_mx, type_tlsa, type_ds, type_other, Rr, Response, txt_records, mx_records,
  tlsa_records, any_ds, Resolver, txt_answer, mx_answer, tlsa_answer, ds_answer, new_doh,
}
use mailsec_probe.DnsClient.Doh.Preference.{present_mx, decode_mx-present_mx}
use mailsec_probe.DnsClient.Doh.TxtForm.{
  concat_strings, decode_txt_presentation-quoted, quoted, IsUnescaped,
}
use mailsec_probe.DnsClient.Hex.{hex_decode}
use mailsec_probe.DnsClient.Udp.{
  UdpRr, txt_rr, mx_rr, tlsa_rr, ds_rr, unread_rr, Message, txt_texts, mx_answers, tlsa_answers,
  has_ds_rr, Dns, UdpClient, udp_client, udp_txt, udp_mx, udp_tlsa, udp_ds, exchange,
}
use mailsec_probe.Text.{Bytes, codes, trim_suffix, join}
use mailsec_probe.Text.Trim.{IsTrimmed}

-- A record as a DoH resolver presents it, where no string needs an escape: miekg/dns gives the strings
-- of a TXT record with quotes and backslashes escaped, and the presentation puts these in quotes; a TLSA record comes with its parsed form.
abbrev tlsa_handler : ℕ → ℕ → ℕ → Option Bytes → Option TlsaRecord
tlsa_handler usage selector matching_type none = none
tlsa_handler usage selector matching_type (some association) = some (record {
  usage = usage;
  selector = selector;
  matching_type = matching_type;
  payload = association;
})

abbrev rr_of : RrType → Bytes → Option TlsaRecord → Rr
rr_of rr_type value handler = record { rr_type = rr_type; value = value; handler = handler }

abbrev pub present_rr : UdpRr → Rr
present_rr (txt_rr strs) = rr_of type_txt (quoted strs) none
present_rr (mx_rr mx preference) = rr_of type_mx (present_mx preference mx) none
present_rr (tlsa_rr usage selector matching_type certificate) =
    rr_of type_tlsa certificate (tlsa_handler usage selector matching_type (hex_decode certificate))
present_rr ds_rr = rr_of type_ds [] none
present_rr unread_rr = rr_of type_other [] none

-- The strings of a TXT record need no escapes. An MX record has a 16-bit preference and an exchange
-- other than the root.
abbrev pub IsSound : UdpRr → Type 0
IsSound (txt_rr strs) = All IsUnescaped strs
IsSound (mx_rr mx preference) =
    (preference ≤ 65535) × IsTrimmed mx × (trim_suffix mx (codes ".") ≢ [])
IsSound _ = Unit

concat-join : (strs : List Bytes) → concat_strings strs ≡ join strs []
unfolding concat_strings join
concat-join [] = refl
concat-join (s ∷ []) = append-nil s
concat-join (s ∷ t ∷ strs) = ap (λ u. s ++ u) (concat-join (t ∷ strs))

txt-agree : (rrs : List UdpRr) → All IsSound rrs → txt_records (map present_rr rrs) ≡ txt_texts rrs
unfolding txt_records txt_texts
txt-agree [] sound = refl
txt-agree (txt_rr strs ∷ rrs) (clean, sound) =
    rw (decode_txt_presentation-quoted strs clean, concat-join strs, txt-agree rrs sound)
txt-agree (mx_rr mx preference ∷ rrs) sound = txt-agree rrs sound.1
txt-agree (tlsa_rr usage selector matching_type certificate ∷ rrs) sound = txt-agree rrs sound.1
txt-agree (ds_rr ∷ rrs) sound = txt-agree rrs sound.1
txt-agree (unread_rr ∷ rrs) sound = txt-agree rrs sound.1

mx-agree : (rrs : List UdpRr) → All IsSound rrs → mx_records (map present_rr rrs) ≡ mx_answers rrs
unfolding mx_records mx_answers
mx-agree [] sound = refl
mx-agree (txt_rr strs ∷ rrs) sound = mx-agree rrs sound.1
mx-agree (mx_rr mx preference ∷ rrs) ((small, trimmed, named), sound) =
    rw (decode_mx-present_mx preference mx small trimmed named, mx-agree rrs sound)
mx-agree (tlsa_rr usage selector matching_type certificate ∷ rrs) sound = mx-agree rrs sound.1
mx-agree (ds_rr ∷ rrs) sound = mx-agree rrs sound.1
mx-agree (unread_rr ∷ rrs) sound = mx-agree rrs sound.1

tlsa-agree : (rrs : List UdpRr) → tlsa_records (map present_rr rrs) ≡ tlsa_answers rrs
unfolding tlsa_records tlsa_answers
tlsa-agree [] = refl
tlsa-agree (txt_rr strs ∷ rrs) = tlsa-agree rrs
tlsa-agree (mx_rr mx preference ∷ rrs) = tlsa-agree rrs
tlsa-agree (tlsa_rr usage selector matching_type certificate ∷ rrs) =
    elim (Option-cases (hex_decode certificate)) [
      | inl odd ↦ rw (odd, tlsa-agree rrs)
      | inr (association, even) ↦ rw (even, tlsa-agree rrs)
    ]
tlsa-agree (ds_rr ∷ rrs) = tlsa-agree rrs
tlsa-agree (unread_rr ∷ rrs) = tlsa-agree rrs

ds-agree : (rrs : List UdpRr) → any_ds (map present_rr rrs) ≡ has_ds_rr rrs
unfolding any_ds has_ds_rr
ds-agree [] = refl
ds-agree (txt_rr strs ∷ rrs) = ds-agree rrs
ds-agree (mx_rr mx preference ∷ rrs) = ds-agree rrs
ds-agree (tlsa_rr usage selector matching_type certificate ∷ rrs) = ds-agree rrs
ds-agree (ds_rr ∷ rrs) = refl
ds-agree (unread_rr ∷ rrs) = ds-agree rrs

-- A resolver that presents, for each question, the message which the servers give to it, and fails
-- with the same error where they give none.
abbrev pub present_message : Message ⊎ Bytes → Response × Option Bytes
present_message (inl m) =
    (record { ad = m.authenticated_data; rcode = m.rcode; records = map present_rr m.answer }, none)
present_message (inr e) = (record { ad = false; rcode = 0; records = [] }, some e)

abbrev pub AllSound : Message ⊎ Bytes → Type 0
AllSound (inl m) = All IsSound m.answer
AllSound (inr e) = Unit

-- Two clients answer every lookup in the same way.
pub record Agree (a b : Client) : Type 0 where
  pub same_txt : (name : Bytes) → a.lookup_txt name ≡ b.lookup_txt name
  pub same_mx : (name : Bytes) → a.lookup_mx name ≡ b.lookup_mx name
  pub same_tlsa : (name : Bytes) → a.lookup_tlsa name ≡ b.lookup_tlsa name
  pub same_ds : (name : Bytes) → a.has_ds name ≡ b.has_ds name

answer_txt-agree : (o : Message ⊎ Bytes) → AllSound o → txt_answer (present_message o) ≡ udp_txt o
answer_txt-agree (inl m) sound = rw (txt-agree m.answer sound)
answer_txt-agree (inr e) sound = refl

answer_mx-agree : (o : Message ⊎ Bytes) → AllSound o → mx_answer (present_message o) ≡ udp_mx o
answer_mx-agree (inl m) sound = rw (mx-agree m.answer sound)
answer_mx-agree (inr e) sound = refl

answer_tlsa-agree : (o : Message ⊎ Bytes) → tlsa_answer (present_message o) ≡ udp_tlsa o
answer_tlsa-agree (inl m) = rw (tlsa-agree m.answer)
answer_tlsa-agree (inr e) = refl

answer_ds-agree : (o : Message ⊎ Bytes) → ds_answer (present_message o) ≡ udp_ds o
answer_ds-agree (inl m) = rw (ds-agree m.answer)
answer_ds-agree (inr e) = refl

-- The client over HTTPS and the client over UDP answer every lookup in the same way, when the
-- resolver presents for each question the message which `exchange` returns, or fails with its error,
-- the strings of the TXT records, which it puts in quotes as they are, hold no quotes and no
-- backslashes, and the MX records have 16-bit preferences and exchanges without white space at their
-- ends that are not the root. Each of the two restrictions holds for the answers to both questions.
pub new_doh-udp_client :
    (net : Dns) (c : UdpClient) (resolver : Resolver)
    → ((name : Bytes) (qtype : RrType)
        → resolver name qtype ≡ present_message (exchange net c name qtype))
    → ((name : Bytes) → AllSound (exchange net c name type_txt))
    → ((name : Bytes) → AllSound (exchange net c name type_mx))
    → Agree (new_doh resolver) (udp_client net c)
unfolding new_doh udp_client
new_doh-udp_client net c resolver presents texts sound = record {
  same_txt = λ name.
      rw (presents name type_txt) (answer_txt-agree (exchange net c name type_txt) (texts name));
  same_mx = λ name.
      rw (presents name type_mx) (answer_mx-agree (exchange net c name type_mx) (sound name));
  same_tlsa =
      λ name. rw (presents name type_tlsa) (answer_tlsa-agree (exchange net c name type_tlsa));
  same_ds = λ name. rw (presents name type_ds) (answer_ds-agree (exchange net c name type_ds));
}
