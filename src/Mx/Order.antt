-- ===== src/Mx/Order.antt =====
-- `runOne` of internal/probe/mx/mx.go: the hosts that it reports, and its verdict.
use mathlib.Core.List.{Perm}
use mailsec_probe.Mx.{
  Probe, run_one, Host, is_null_mx, host_of, less_preference, on_hosts, on_records, show_record,
}
use mailsec_probe.Common.{
  keep, ◌==◌, ℕ, ◌≡◌, refl, ◌↔◌, ◌⊎◌, Bool, true, none, some, List, [], ◌∷◌, map, arith, length,
  inl, inr,
}
use mailsec_probe.DnsClient.{MxRecord, MxResult}
use mailsec_probe.Signals.{Signal, absent, dns_mx, lookup_signal}
use mailsec_probe.Sort.{sort_stable}
use mailsec_probe.Sort.Laws.{
  IsSorted, sort_stable-perm, keep-sort_stable, rank-IsOrder, length-sort_stable,
  sort_stable-IsSorted,
}
use mailsec_probe.Text.{Bytes, codes}
use mailsec_probe.Text.Match.{str_eq_iff, is_empty_iff}

abbrev pub hosts_of : MxResult → List Host
hosts_of res = map host_of res.records

abbrev pub at_preference : ℕ → Host → Bool
at_preference n h = h.preference == n

-- What is known of the reported hosts, given the answer.
pub record IsReport (res : MxResult) (hosts : List Host) : Type 0 where
  pub sorted : IsSorted less_preference hosts
  pub same_hosts : Perm hosts (hosts_of res)
  pub stable : (n : ℕ) → keep (at_preference n) hosts ≡ keep (at_preference n) (hosts_of res)

sort-IsReport : (res : MxResult) → IsReport res (sort_stable less_preference (hosts_of res))
sort-IsReport res = record {
  sorted =
      sort_stable-IsSorted less_preference (rank-IsOrder (λ (h : Host). h.preference))
        (hosts_of res);
  same_hosts = sort_stable-perm less_preference (hosts_of res);
  stable = λ n.
      keep-sort_stable less_preference (at_preference n) (λ x y p q. ground arith) (hosts_of res);
}

on_hosts-details :
    (hosts : List Host) (sig : Signal)
    → (on_hosts hosts sig).details ≡ some (record { hosts = hosts })
on_hosts-details hosts sig = ground arith

on_records-details :
    (domain : Bytes) (records : List MxRecord)
    → (on_records domain records).details
      ≡ some (record { hosts = sort_stable less_preference (map host_of records) })
on_records-details domain [] = unfold sort_stable in refl
on_records-details domain (r ∷ records) = on_hosts-details _ _

-- On an answer of the DNS, the details hold every MX record of it and nothing else, in the order of
-- preference, and records of one preference stay in the order of the answer.
pub run_one-IsReport :
    (p : Probe) (domain : Bytes) (res : MxResult)
    → p.dns.lookup_mx domain ≡ (res, none)
    → (hosts : List Host) × ((run_one p domain).details ≡ some (record { hosts = hosts }))
      × IsReport res hosts
unfolding run_one
run_one-IsReport p domain res answer = (
  sort_stable less_preference (hosts_of res),
  rw answer (on_records-details domain res.records),
  sort-IsReport res,
)

-- The null MX of RFC 7505: one record, with preference 0 and the root for host.
pub data IsNull : List MxRecord → Type 0 where
  refuses :
      (r : MxRecord) → r.preference ≡ 0 → (r.host ≡ []) ⊎ (r.host ≡ codes ".") → IsNull (r ∷ [])

is_null_mx-IsNull : (r : MxRecord) → is_null_mx (host_of r ∷ []) ≡ true → IsNull (r ∷ [])
unfolding is_null_mx
is_null_mx-IsNull r h =
    refuses r (ground arith) (ground (arith, is_empty_iff r.host, str_eq_iff r.host (codes ".")))

IsNull-is_null_mx : (r : MxRecord) → IsNull (r ∷ []) → is_null_mx (host_of r ∷ []) ≡ true
unfolding is_null_mx
IsNull-is_null_mx r (refuses _ zero_pref root) =
    ground (arith, is_empty_iff r.host, str_eq_iff r.host (codes "."))

is_null_mx-length : (hosts : List Host) → is_null_mx hosts ≡ true → length hosts ≡ 1
unfolding is_null_mx
is_null_mx-length [] h = cc
is_null_mx-length (a ∷ []) h = refl
is_null_mx-length (a ∷ b ∷ hosts) h = cc

on_hosts-status :
    (hosts : List Host) (sig : Signal)
    → ((on_hosts hosts sig).status ≡ absent) ↔ (is_null_mx hosts ≡ true)
on_hosts-status hosts sig = ground arith

on_records-absent :
    (domain : Bytes) (records : List MxRecord)
    → (on_records domain records).status ≡ absent
    → (records ≡ []) ⊎ IsNull records
unfolding sort_stable
on_records-absent domain [] h = inl refl
on_records-absent domain (r ∷ []) h = inr (is_null_mx-IsNull r ((on_hosts-status _ _).0 h))
on_records-absent domain (r ∷ q ∷ records) h =
    let hosts = sort_stable less_preference (map host_of (r ∷ q ∷ records)) in
    let one = is_null_mx-length hosts ((on_hosts-status hosts _).0 h) in
    absurd (omega (arith, length-sort_stable less_preference (map host_of (r ∷ q ∷ records))))

absent-on_records :
    (domain : Bytes) (records : List MxRecord)
    → (records ≡ []) ⊎ IsNull records
    → (on_records domain records).status ≡ absent
unfolding sort_stable
absent-on_records domain [] h = refl
absent-on_records domain (r ∷ []) (inl e) = cc
absent-on_records domain (r ∷ []) (inr n) =
    (on_hosts-status (host_of r ∷ [])
        (lookup_signal dns_mx domain none (map show_record (r ∷ [])))).1
      (IsNull-is_null_mx r n)
absent-on_records domain (r ∷ q ∷ records) (inl e) = cc
absent-on_records domain (r ∷ q ∷ records) (inr n) = elim n [ ]

-- On an answer of the DNS, MX is reported absent exactly when there is no MX record, or the null MX
-- alone.
pub run_one-IsNull :
    (p : Probe) (domain : Bytes) (res : MxResult)
    → p.dns.lookup_mx domain ≡ (res, none)
    → ((run_one p domain).status ≡ absent) ↔ ((res.records ≡ []) ⊎ IsNull res.records)
unfolding run_one
run_one-IsNull p domain res answer =
    rw answer (on_records-absent domain res.records, absent-on_records domain res.records)
