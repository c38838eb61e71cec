-- ===== src/Tests.antt =====
-- Clients and answers that the examples share.
mod Records
mod Reports
mod Mail
mod Keys
mod Lookups
mod Runs
mod Active
mod Dns
mod Texts
mod Whole
use mailsec_probe.DnsClient.{TxtResult, Client}
use mailsec_probe.HttpFetcher.{Fetcher}
use mailsec_probe.Text.{Bytes, codes}
use mailsec_probe.Common.{true, false, none, some, List, [], ◌∷◌}

abbrev answering : List Bytes → Client
answering records = record {
  lookup_txt = λ _. (record { records = records; ad = true; rcode = 0 }, none);
  lookup_mx = λ _. (
    record {
      records =
          record { host = codes "mx2.example.com."; preference = 20 }
          ∷ record { host = codes "mx1.example.com."; preference = 10 }
          ∷ [];
      ad = false;
      rcode = 0;
    },
    none,
  );
  lookup_tlsa = λ _. (record { records = []; ad = false; rcode = 0 }, none);
  has_ds = λ _. (false, none);
}

abbrev silent_client : Client
silent_client = record (answering []) {
  lookup_txt = λ _. (record { records = []; ad = false; rcode = 0 }, some (codes "timeout"));
  lookup_mx = λ _. (record { records = []; ad = false; rcode = 0 }, none);
}

abbrev example_domain : Bytes
example_domain = codes "example.com"

abbrev answer_of : List Bytes → TxtResult
answer_of records = record { records = records; ad = true; rcode = 0 }

abbrev fetcher_with : Bytes → Fetcher
fetcher_with body = record { get = λ _. (200, body, none); head = λ _. (204, none) }
