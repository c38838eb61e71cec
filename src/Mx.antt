-- ===== src/Mx.antt =====
-- internal/probe/mx/mx.go: the MX records of a domain.
pub mod Order
use mailsec_probe.Common.{
  length, ltb, ◌==◌, if◌then◌else◌, ℕ, Bool, false, ◌&&◌, ◌||◌, Option, none, some, List, [], ◌∷◌,
  ◌++◌, map,
}
use mailsec_probe.DnsClient.{MxResult, Client, MxRecord}
use mailsec_probe.Signals.{
  Status, present, absent, unknown, dns_mx, Signal, Feature, lookup_signal, feature,
}
use mailsec_probe.Sort.{sort_stable}
use mailsec_probe.Text.{Bytes, codes, str_eq, is_empty, decimal}

pub record Host : Type 0 where
  pub preference : ℕ
  pub host : Bytes

pub record Details : Type 0 where
  pub hosts : List Host

pub record Probe : Type 0 where
  pub dns : Client

-- The format "%d %s".
abbrev show : ℕ → Bytes → Bytes
show preference host = decimal preference ++ (codes " " ++ host)

abbrev show_host : Host → Bytes
show_host h = show h.preference h.host

pub summary_hosts : List Host → Bytes
unfolding decimal
summary_hosts [] = codes "no MX"
summary_hosts (h ∷ []) = show_host h
summary_hosts (h ∷ i ∷ []) = show_host h ++ (codes ", " ++ show_host i)
summary_hosts (h ∷ i ∷ j ∷ hs) =
    show_host h
    ++ (codes ", "
        ++ (show_host i ++ (codes ", +" ++ (decimal (length (j ∷ hs)) ++ codes " more"))))

pub summary : Details → Bytes
unfolding summary_hosts
summary d = summary_hosts d.hosts

unfoldable pub is_null_mx : List Host → Bool
unfolding str_eq
is_null_mx (h ∷ []) = h.preference == 0 && (is_empty h.host || str_eq h.host (codes "."))
is_null_mx _ = false

abbrev pub host_of : MxRecord → Host
host_of r = record { preference = r.preference; host = r.host }

abbrev show_record : MxRecord → Bytes
show_record r = show r.preference r.host

abbrev pub less_preference : Host → Host → Bool
less_preference a b = ltb a.preference b.preference

abbrev mx_feature : Status → ℕ → List Bytes → Option Details → Signal → Feature Details
mx_feature status confidence reasons details sig =
    feature (codes "mx") status confidence reasons details (sig ∷ [])

abbrev on_hosts : List Host → Signal → Feature Details
on_hosts hosts sig =
    if is_null_mx hosts
    then mx_feature absent 100 (codes "null MX (RFC 7505): domain explicitly refuses mail" ∷ [])
        (some (record { hosts = hosts })) sig
    else mx_feature present 100 ((decimal (length hosts) ++ codes " MX record(s)") ∷ [])
        (some (record { hosts = hosts })) sig

abbrev on_records : Bytes → List MxRecord → Feature Details
on_records domain [] =
    mx_feature absent 95 (codes "no MX records" ∷ []) (some (record { hosts = [] }))
      (lookup_signal dns_mx domain none [])
on_records domain (r ∷ records) =
    on_hosts (sort_stable less_preference (map host_of (r ∷ records)))
      (lookup_signal dns_mx domain none (map show_record (r ∷ records)))

abbrev observe : Bytes → MxResult × Option Bytes → Feature Details
observe domain (res, some e) =
    mx_feature unknown 0 ((codes "MX lookup failed: " ++ e) ∷ []) none
      (lookup_signal dns_mx domain (some e) [])
observe domain (res, none) = on_records domain res.records

unfoldable pub run_one : Probe → Bytes → Feature Details
unfolding sort_stable decimal is_null_mx
run_one p domain = observe domain (p.dns.lookup_mx domain)
