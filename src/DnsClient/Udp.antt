-- ===== src/DnsClient/Udp.antt =====
-- internal/probe/dnsclient/dnsclient.go: the client over UDP and TCP, and the choice of a client. The
-- messages and exchanges of miekg/dns, the functions of net and /etc/resolv.conf are arguments; the
-- time limit of a context is left out.
pub mod FirstAnswer
pub mod Build
pub mod Agree
use mailsec_probe.Common.{
  if◌then◌else◌, ℕ, ◌⊎◌, inl, inr, Bool, true, false, Option, none, some, List, [], ◌∷◌, ◌++◌,
}
use mailsec_probe.DnsClient.{TxtResult, MxRecord, MxResult, TlsaRecord, TlsaResult, Client}
use mailsec_probe.DnsClient.Doh.{RrType, type_txt, type_mx, type_tlsa, type_ds}
use mailsec_probe.DnsClient.Hex.{hex_decode}
use mailsec_probe.Text.{Bytes, codes, trim_suffix, join}

-- A record of an answer: the character-strings of a TXT record, an MX record, a TLSA record with its
-- certificate in hexadecimal, or a DS record.
pub data UdpRr : Type 0 where
  txt_rr : List Bytes → UdpRr
  mx_rr : Bytes → ℕ → UdpRr
  tlsa_rr : ℕ → ℕ → ℕ → Bytes → UdpRr
  ds_rr : UdpRr
  unread_rr : UdpRr

pub record Message : Type 0 where
  pub authenticated_data : Bool
  pub rcode : ℕ
  pub truncated : Bool
  pub answer : List UdpRr

-- The question, with EDNS0.
pub record Question : Type 0 where
  pub name : Bytes
  pub qtype : RrType
  pub edns_size : ℕ
  pub dnssec_ok : Bool
  pub recursion_desired : Bool
  pub authenticated_data : Bool

-- What `ExchangeContext` returns: a message that may be nil, and an error.
abbrev pub Exchanged : Type 0
Exchanged = Option Message × Option Bytes

pub record Dns : Type 0 where
  pub fqdn : Bytes → Bytes
  pub udp : ℕ → Question → Bytes → Exchanged
  pub tcp : ℕ → Question → Bytes → Exchanged

pub record UdpClient : Type 0 where
  pub servers : List Bytes
  pub timeout : ℕ

-- What one server gives: a message to return, or the value of `lastErr`. Where there is neither a
-- message nor an error, `lastErr` is nil.
abbrev on_tcp : Exchanged → Message ⊎ Option Bytes
on_tcp (some m, none) = inl m
on_tcp (none, none) = inr none
on_tcp (m, some e) = inr (some e)

-- A truncated message is asked for again over TCP.
abbrev unless_truncated : Message → Bool → Exchanged → Message ⊎ Option Bytes
unless_truncated m truncated retried = if truncated then on_tcp retried else inl m

abbrev on_udp : Exchanged → Exchanged → Message ⊎ Option Bytes
on_udp (some m, none) retried = unless_truncated m m.truncated retried
on_udp (none, none) retried = inr none
on_udp (m, some e) retried = inr (some e)

abbrev pub ask : Dns → ℕ → Question → Bytes → Message ⊎ Option Bytes
ask net timeout q server = on_udp (net.udp timeout q server) (net.tcp timeout q server)

abbrev last_error : Bytes → Option Bytes → Bytes
last_error name none = codes "dnsclient: no answer from any server for " ++ name
last_error name (some e) = e

abbrev stop_or : Message ⊎ Option Bytes → (Option Bytes → Message ⊎ Bytes) → Message ⊎ Bytes
stop_or (inl m) continue = inl m
stop_or (inr e) continue = continue e

-- The loop over the servers, with `lastErr`.
unfoldable pub try_servers :
    Dns → ℕ → Question → Bytes → Option Bytes → List Bytes → Message ⊎ Bytes
try_servers net timeout q name last [] = inr (last_error name last)
try_servers net timeout q name last (server ∷ servers) =
    stop_or (ask net timeout q server) (λ e. try_servers net timeout q name e servers)

abbrev pub question_of : Dns → Bytes → RrType → Question
question_of net name qtype = record {
  name = net.fqdn name;
  qtype = qtype;
  edns_size = 4096;
  dnssec_ok = true;
  recursion_desired = true;
  authenticated_data = true;
}

abbrev exchange_with : Dns → UdpClient → Bytes → RrType → List Bytes → Message ⊎ Bytes
exchange_with net c name qtype [] = inr (codes "dnsclient: no servers configured")
exchange_with net c name qtype (server ∷ servers) =
    try_servers net c.timeout (question_of net name qtype) name none (server ∷ servers)

unfoldable pub exchange : Dns → UdpClient → Bytes → RrType → Message ⊎ Bytes
unfolding try_servers
exchange net c name qtype = exchange_with net c name qtype c.servers

-- The loops over an answer.
unfoldable pub txt_texts : List UdpRr → List Bytes
unfolding join
txt_texts [] = []
txt_texts (txt_rr strs ∷ rrs) = join strs [] ∷ txt_texts rrs
txt_texts (_ ∷ rrs) = txt_texts rrs

unfoldable pub mx_answers : List UdpRr → List MxRecord
unfolding trim_suffix
mx_answers [] = []
mx_answers (mx_rr mx preference ∷ rrs) =
    record { host = trim_suffix mx (codes "."); preference = preference } ∷ mx_answers rrs
mx_answers (_ ∷ rrs) = mx_answers rrs

abbrev tlsa_of : ℕ → ℕ → ℕ → Option Bytes → List TlsaRecord → List TlsaRecord
tlsa_of usage selector matching_type none rest = rest
tlsa_of usage selector matching_type (some association) rest =
    record {
      usage = usage;
      selector = selector;
      matching_type = matching_type;
      payload = association;
    }
    ∷ rest

-- A certificate that is not hexadecimal is passed over.
unfoldable pub tlsa_answers : List UdpRr → List TlsaRecord
unfolding hex_decode
tlsa_answers [] = []
tlsa_answers (tlsa_rr usage selector matching_type certificate ∷ rrs) =
    tlsa_of usage selector matching_type (hex_decode certificate) (tlsa_answers rrs)
tlsa_answers (_ ∷ rrs) = tlsa_answers rrs

unfoldable pub has_ds_rr : List UdpRr → Bool
has_ds_rr [] = false
has_ds_rr (ds_rr ∷ rrs) = true
has_ds_rr (_ ∷ rrs) = has_ds_rr rrs

abbrev udp_txt : Message ⊎ Bytes → TxtResult × Option Bytes
udp_txt (inr e) = (record { records = []; ad = false; rcode = 0 }, some e)
udp_txt (inl msg) = (
  record { records = txt_texts msg.answer; ad = msg.authenticated_data; rcode = msg.rcode },
  none,
)

abbrev udp_mx : Message ⊎ Bytes → MxResult × Option Bytes
udp_mx (inr e) = (record { records = []; ad = false; rcode = 0 }, some e)
udp_mx (inl msg) = (
  record { records = mx_answers msg.answer; ad = msg.authenticated_data; rcode = msg.rcode },
  none,
)

abbrev udp_tlsa : Message ⊎ Bytes → TlsaResult × Option Bytes
udp_tlsa (inr e) = (record { records = []; ad = false; rcode = 0 }, some e)
udp_tlsa (inl msg) = (
  record { records = tlsa_answers msg.answer; ad = msg.authenticated_data; rcode = msg.rcode },
  none,
)

abbrev udp_ds : Message ⊎ Bytes → Bool × Option Bytes
udp_ds (inr e) = (false, some e)
udp_ds (inl msg) = (has_ds_rr msg.answer, none)

-- The methods of `client`.
unfoldable pub udp_client : Dns → UdpClient → Client
unfolding exchange txt_texts mx_answers tlsa_answers has_ds_rr
udp_client net c = record {
  lookup_txt = λ name. udp_txt (exchange net c name type_txt);
  lookup_mx = λ name. udp_mx (exchange net c name type_mx);
  lookup_tlsa = λ name. udp_tlsa (exchange net c name type_tlsa);
  has_ds = λ name. udp_ds (exchange net c name type_ds);
}
