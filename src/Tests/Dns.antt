-- ===== src/Tests/Dns.antt =====
-- The theorems on the DNS clients, at two servers: one that is silent, and one whose answer is
-- truncated over UDP.
use mailsec_probe.Common.{
  if◌then◌else◌, ◌≡◌, refl, ◌↔◌, inl, true, false, none, some, [], ◌∷◌, ◌++◌, arith,
}
use mailsec_probe.DnsClient.Doh.{type_mx, Resolver, new_doh, RrType, type_txt}
use mailsec_probe.DnsClient.Udp.{
  txt_rr, mx_rr, tlsa_rr, ds_rr, Message, Exchanged, Dns, UdpClient, question_of, exchange,
  udp_client,
}
use mailsec_probe.DnsClient.Udp.Agree.{present_message, AllSound, Agree, new_doh-udp_client}
use mailsec_probe.DnsClient.Udp.FirstAnswer.{IsFirst, exchange-IsFirst}
use mailsec_probe.Text.{Bytes, codes, str_eq, is_space, trim_left, trim_right, trim_suffix}
use mailsec_probe.Tests.{example_domain}
use mathlib.Core.List.{cons-ne-nil}

abbrev mail_message : Message
mail_message = record {
  authenticated_data = true;
  rcode = 0;
  truncated = false;
  answer =
      txt_rr (codes "v=spf1 " ∷ codes "-all" ∷ [])
      ∷ mx_rr (codes "mx1.example.com.") 10
      ∷ tlsa_rr 3 1 1 (codes "30 fF")
      ∷ ds_rr
      ∷ [];
}

abbrev udp_of_server : Bytes → Exchanged
udp_of_server server =
    if str_eq server (codes "b:53")
    then (some (record mail_message { truncated = true }), none)
    else (none, some (codes "timeout"))

abbrev toy_dns : Dns
toy_dns = record {
  fqdn = λ name. name ++ codes ".";
  udp = λ timeout q server. udp_of_server server;
  tcp = λ timeout q server. (some mail_message, none);
}

abbrev two_servers : UdpClient
two_servers = record { servers = codes "a:53" ∷ codes "b:53" ∷ []; timeout = 5000 }

exchange-IsFirst_example :
    (exchange toy_dns two_servers example_domain type_mx ≡ inl mail_message)
    ↔ IsFirst toy_dns 5000
        (question_of toy_dns example_domain type_mx)
        (codes "a:53" ∷ codes "b:53" ∷ [])
        mail_message
exchange-IsFirst_example = exchange-IsFirst toy_dns two_servers example_domain type_mx mail_message

-- The second server answers, over TCP.
second_answers : exchange toy_dns two_servers example_domain type_mx ≡ inl mail_message
unfolding exchange str_eq
second_answers = refl

abbrev toy_resolver : Resolver
toy_resolver name qtype = present_message (exchange toy_dns two_servers name qtype)

answer-AllSound :
    (name : Bytes) (qtype : RrType) → AllSound (exchange toy_dns two_servers name qtype)
unfolding exchange str_eq trim_left trim_right is_space trim_suffix
answer-AllSound name qtype = (
  ground arith,
  ((omega arith, (record { left = refl; right = refl }), cons-ne-nil _ _), (tt, (tt, tt))),
)

new_doh-udp_client_example : Agree (new_doh toy_resolver) (udp_client toy_dns two_servers)
new_doh-udp_client_example =
    new_doh-udp_client toy_dns two_servers toy_resolver (λ name qtype. refl)
      (λ name. answer-AllSound name type_txt) (λ name. answer-AllSound name type_mx)
