-- ===== src/Tests/Lookups.antt =====
-- The theorems on DNSSEC and on the DNS client, at concrete answers.
use mailsec_probe.Common.{All, ℕ, ◌≡◌, refl, ◌↔◌, true, false, none, some, List, [], ◌∷◌, arith}
use mailsec_probe.DnsClient.Doh.{type_mx, Resolver, new_doh}
use mailsec_probe.DnsClient.Doh.MxForm.{IsNamed, new_doh-IsNamed}
use mailsec_probe.DnsClient.Hex.{hex_decode}
use mailsec_probe.DnsClient.Hex.RoundTrip.{print_hex, hex_decode-print_hex}
use mailsec_probe.DnsSec.{insecure, Validation, ad_only, validate}
use mailsec_probe.DnsSec.Judged.{Chain, run_one-Chain, IsBitVerdict, run_one-IsBitVerdict}
use mailsec_probe.Signals.{absent}
use mailsec_probe.Text.{Bytes, codes}
use mailsec_probe.Tests.{answering, example_domain, answer_of}

abbrev insecure_chain : Validation
insecure_chain = record {
  verdict = insecure;
  verdict_text = codes "insecure";
  insecure_at = codes "example.com.";
  insecure_reason = codes "no DS";
  bogus_at = [];
  bogus_reason = [];
  negative_reason = [];
}

abbrev chain_probe : mailsec_probe.DnsSec.Probe
chain_probe = record {
  dns = answering [];
  mode = validate;
  v = some (λ _. (some insecure_chain, none));
}

run_one-Chain_example :
    ((mailsec_probe.DnsSec.run_one chain_probe example_domain).status ≡ absent)
    ↔ Chain chain_probe.v example_domain absent
run_one-Chain_example = run_one-Chain chain_probe example_domain absent refl

abbrev bit_probe : mailsec_probe.DnsSec.Probe
bit_probe = record { dns = answering []; mode = ad_only; v = none }

run_one-IsBitVerdict_example :
    IsBitVerdict
      (answer_of [], none)
      (false, none)
      (mailsec_probe.DnsSec.run_one bit_probe example_domain).status
run_one-IsBitVerdict_example = run_one-IsBitVerdict bit_probe example_domain refl

abbrev spaced : List (Bytes × ℕ)
spaced = ([], 0xab) ∷ (codes " ", 0x0f) ∷ []

hex_decode-print_hex_example : hex_decode (print_hex true spaced) ≡ some (0xab ∷ 0x0f ∷ [])
hex_decode-print_hex_example = hex_decode-print_hex true spaced (ground arith)

abbrev strings : List Bytes
strings = codes "v=DKIM1; p=" ∷ codes "A\"B\\" ∷ []

abbrev null_mx_answer : Resolver
null_mx_answer _ t = (
  record {
    ad = true;
    rcode = 0;
    records =
        record { rr_type = type_mx; value = codes "0 ."; handler = none }
        ∷ record { rr_type = type_mx; value = codes "10 mx.example.com."; handler = none }
        ∷ [];
  },
  none,
)

new_doh-IsNamed_example : All IsNamed ((new_doh null_mx_answer).lookup_mx example_domain).0.records
new_doh-IsNamed_example = new_doh-IsNamed null_mx_answer example_domain
