-- ===== src/Tests/Active.antt =====
-- The theorems on the active probe, at two mail servers: one that offers STARTTLS and presents a
-- certificate which its TLSA record matches, and one that cannot be reached.
use mailsec_probe.MtaTls.Report.{Details}
use mailsec_probe.MtaTls.Dial.{
  probe, refused, TlsState, Connection, Dialled, opened, Network, Action, dial_tcp,
}
use mailsec_probe.Common.{
  length, ◌==◌, if◌then◌else◌, Bool-cases, ℕ, suc, ◌+◌, ◌≤◌, ◌<◌, ◌≡◌, refl, ◌↔◌, inl, inr, true,
  none, some, List, [], ◌∷◌, ◌++◌, arith,
}
use mailsec_probe.DnsClient.{TlsaRecord, Client}
use mailsec_probe.FanOut.{listed}
use mailsec_probe.MtaTls.{Certificate, Crypto}
use mailsec_probe.MtaTls.Chain.{match_tlsa}
use mailsec_probe.MtaTls.Chain.Match.{HasFirst, match_tlsa_iff}
use mailsec_probe.MtaTls.Dial.Session.{
  IsSecured, IsAccepted, dialling, closed, Session, probe-closed, probe-IsAccepted,
}
use mailsec_probe.MtaTls.Run.{new_probe, Order}
use mailsec_probe.MtaTls.Run.Sequential.{Serves, run_sequential, run-run_sequential}
use mailsec_probe.MtaTls.Run.Verdict.{
  status_of, IsStarttls, IsDane, HasMail, run-IsStarttls, run-IsDane,
}
use mailsec_probe.Signals.{misconfigured, Feature}
use mailsec_probe.Text.{Bytes, codes, str_eq, decimal}
use mathlib.Core.List.{cons-ne-nil}
use mailsec_probe.Tests.{answering, example_domain}
use mailsec_probe.MtaTls.Run.Hosts.{AreHosts}

abbrev mail_cert : Certificate
mail_cert = record {
  raw = 48 ∷ 1 ∷ 2 ∷ [];
  raw_spki = 48 ∷ 9 ∷ [];
  subject = codes "CN=mx1.example.com";
  issuer = codes "CN=Example CA";
  dns_names = codes "mx1.example.com" ∷ [];
  not_before = codes "2026-01-01T00:00:00Z";
  not_after = codes "2026-04-01T00:00:00Z";
}

abbrev toy_crypto : Crypto
toy_crypto = record { verify = λ leaf rest name. none; sha256 = λ s. 2 ∷ s; sha512 = λ s. 5 ∷ s }

abbrev tls13 : TlsState
tls13 = record { version = 772; cipher_suite = 4865; certificates = mail_cert ∷ [] }

abbrev secure_server : Connection
secure_server = record {
  greeting = none;
  hello = λ our_name. none;
  extension = λ word. str_eq word (codes "STARTTLS");
  start_tls = λ config. none;
  tls_state = some tls13;
}

abbrev dial_mx1 : Bytes → Dialled
dial_mx1 address =
    if str_eq address (codes "mx1.example.com:25")
    then opened secure_server
    else refused (codes "refused")

abbrev mail_net : Network
mail_net = record {
  join_host_port = λ host port. host ++ (codes ":" ++ port);
  dial = λ timeout address. dial_mx1 address;
  elapsed = λ address. 12;
}

abbrev mx1 : Bytes
mx1 = codes "mx1.example.com"

abbrev us : Bytes
us = codes "mailsec-probe.local"

probe-closed_example :
    (actions : List Action) × ((probe mail_net 10000 mx1 25 us).1
      ≡ dial_tcp (codes "mx1.example.com:25") ∷ actions)
    × Session mx1 us secure_server dialling actions closed
unfolding decimal str_eq
probe-closed_example = probe-closed mail_net 10000 mx1 25 us secure_server refl

probe-IsAccepted_example : ((probe mail_net 10000 mx1 25 us).0.starttls_accepted ≡ true) ↔ (
    (state : TlsState) × IsSecured mail_net 10000 mx1 25 us state
    × IsAccepted mail_net 10000 mx1 25 us (probe mail_net 10000 mx1 25 us).0 state)
probe-IsAccepted_example = probe-IsAccepted mail_net 10000 mx1 25 us

abbrev tlsa_records : List TlsaRecord
tlsa_records =
    record { usage = 3; selector = 1; matching_type = 2; payload = 7 ∷ [] }
    ∷ record { usage = 3; selector = 1; matching_type = 1; payload = 2 ∷ 48 ∷ 9 ∷ [] }
    ∷ []

match_tlsa_iff_example :
    (match_tlsa toy_crypto tlsa_records (mail_cert ∷ []) ≡ some 1)
    ↔ HasFirst toy_crypto tlsa_records (mail_cert ∷ []) 1
match_tlsa_iff_example = match_tlsa_iff toy_crypto tlsa_records (mail_cert ∷ []) 1

abbrev dane_client : Client
dane_client = record (answering []) {
  lookup_tlsa = λ name. (record { records = tlsa_records; ad = true; rcode = 0 }, none);
}

abbrev mail_probe : mailsec_probe.MtaTls.Run.Probe
mail_probe = new_probe mail_net dane_client

-- The goroutines finish in the order of their hosts.
abbrev count_up : ℕ → List Bytes → List ℕ
count_up from [] = []
count_up from (h ∷ hosts) = from ∷ count_up (suc from) hosts

abbrev in_turn : Order
in_turn n hosts = count_up 0 hosts

count_up-listed :
    (from i : ℕ) (hosts : List Bytes)
    → from ≤ i
    → i < from + length hosts
    → listed i (count_up from hosts) ≡ true
count_up-listed from i [] low high = absurd (omega (arith, low, high))
count_up-listed from i (h ∷ hosts) low high = elim (Bool-cases (i == from)) [
  | inl here ↦ rw here
  | inr later ↦ rw (later, count_up-listed (suc from) i hosts (ground arith) (omega (arith, high)))
]

in_turn-Serves : Serves in_turn
in_turn-Serves n hosts positive i h = count_up-listed 0 i hosts (ground arith) (omega (arith, h))

example-HasMail : HasMail mail_probe example_domain (dane_client.lookup_mx example_domain).0
unfolding new_probe
example-HasMail = record { answered = refl; some_mx = cons-ne-nil _ _; not_null = λ n. elim n [ ] }

run-run_sequential_example :
    mailsec_probe.MtaTls.Run.run toy_crypto mail_probe in_turn in_turn example_domain
    ≡ run_sequential toy_crypto mail_probe example_domain
run-run_sequential_example =
    run-run_sequential toy_crypto mail_probe in_turn in_turn example_domain in_turn-Serves
      in_turn-Serves

abbrev example_run : List (Feature Details)
example_run = mailsec_probe.MtaTls.Run.run toy_crypto mail_probe in_turn in_turn example_domain

run-IsStarttls_example :
    (hosts : List Bytes) × AreHosts (dane_client.lookup_mx example_domain).0.records hosts
    × IsStarttls mail_probe hosts (status_of (codes "starttls") example_run)
run-IsStarttls_example =
    run-IsStarttls toy_crypto mail_probe in_turn in_turn example_domain
      (dane_client.lookup_mx example_domain).0 in_turn-Serves in_turn-Serves example-HasMail

run-IsDane_example :
    (hosts : List Bytes) × AreHosts (dane_client.lookup_mx example_domain).0.records hosts
    × IsDane toy_crypto mail_probe hosts (status_of (codes "dane") example_run)
run-IsDane_example =
    run-IsDane toy_crypto mail_probe in_turn in_turn example_domain
      (dane_client.lookup_mx example_domain).0 in_turn-Serves in_turn-Serves example-HasMail

-- One server of two is reached and secured, so the two features are misconfigured.
example_status : status_of (codes "starttls") example_run ≡ some misconfigured
unfolding mailsec_probe.MtaTls.Run.run new_probe
example_status = refl

dane_status : status_of (codes "dane") example_run ≡ some misconfigured
unfolding mailsec_probe.MtaTls.Run.run new_probe
dane_status = refl
