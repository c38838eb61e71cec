-- ===== src/MtaTls/Run/Verdict.antt =====
-- `Run` of internal/probe/mtatls/mtatls.go: when STARTTLS and DANE are present, misconfigured, absent
-- or unknown.
use mailsec_probe.MtaTls.Report.{Details}
use mailsec_probe.MtaTls.Run.{Probe, unique_mx_hosts, is_null_mx, is_nil_list, run, Order}
use mailsec_probe.Common.{
  All, Some, if◌then◌else◌, ◌≡◌, refl, ◌≢◌, ◌↔◌, true, false, Option, none, some, List, [], ◌∷◌,
  map, arith, Bool-cases, inl, inr,
}
use mailsec_probe.DnsClient.{MxRecord, MxResult}
use mailsec_probe.MtaTls.{Crypto}
use mailsec_probe.MtaTls.Features.{assemble, starttls_feature, dane_feature}
use mailsec_probe.MtaTls.Run.Flags.{
  Connected, Accepted, Publishes, Authenticated, any_connect_iff, all_accepted_iff, any_tlsa_iff,
  all_match_iff,
}
use mailsec_probe.MtaTls.Run.Sequential.{visit, run_sequential, Serves, run-run_sequential}
use mailsec_probe.Mx.Order.{IsNull, refuses}
use mailsec_probe.Signals.{Status, present, absent, unknown, misconfigured, Feature}
use mailsec_probe.Text.{Bytes, codes, str_eq}
use mailsec_probe.Text.Match.{str_eq_iff, is_empty_iff}
use mailsec_probe.MtaTls.Run.Hosts.{AreHosts, unique_mx_hosts-AreHosts}

-- The status of the first feature of a name.
abbrev pub status_of : Bytes → List (Feature Details) → Option Status
status_of name [] = none
status_of name (f ∷ features) =
    if str_eq f.name name then some f.status else status_of name features

-- What the status of "starttls" says of the hosts.
pub record IsStarttls (p : Probe) (hosts : List Bytes) (status : Option Status) : Type 0 where
  pub when_present : (status ≡ some present) ↔ (Some (Connected p) hosts × All (Accepted p) hosts)
  pub when_misconfigured :
      (status ≡ some misconfigured) ↔ (Some (Connected p) hosts × (¬ All (Accepted p) hosts))
  pub when_unknown : (status ≡ some unknown) ↔ (¬ Some (Connected p) hosts)

-- What the status of "dane" says of the hosts.
pub record IsDane (crypto : Crypto) (p : Probe) (hosts : List Bytes) (status : Option Status)
    : Type 0 where
  pub when_present :
      (status ≡ some present) ↔ (Some (Publishes p) hosts × All (Authenticated crypto p) hosts)
  pub when_misconfigured :
      (status ≡ some misconfigured)
      ↔ (Some (Publishes p) hosts × (¬ All (Authenticated crypto p) hosts))
  pub when_absent : (status ≡ some absent) ↔ (¬ Some (Publishes p) hosts)

-- A domain whose MX lookup answers with records, other than the null MX.
pub record HasMail (p : Probe) (domain : Bytes) (res : MxResult) : Type 0 where
  pub answered : p.dns.lookup_mx domain ≡ (res, none)
  pub some_mx : res.records ≢ []
  pub not_null : ¬ IsNull res.records

is_null_mx-IsNull : (records : List MxRecord) → is_null_mx records ≡ true → IsNull records
unfolding is_null_mx
is_null_mx-IsNull [] h = cc
is_null_mx-IsNull (r ∷ []) h =
    refuses r (ground arith) (ground (arith, is_empty_iff r.host, str_eq_iff r.host (codes ".")))
is_null_mx-IsNull (r ∷ q ∷ records) h = cc

IsNull-is_null_mx : (records : List MxRecord) → IsNull records → is_null_mx records ≡ true
unfolding is_null_mx
IsNull-is_null_mx _ (refuses r zero_pref root) =
    ground (arith, is_empty_iff r.host, str_eq_iff r.host (codes "."))

is_nil_list_iff : {A : Type 0} (xs : List A) → (is_nil_list xs ≡ true) ↔ (xs ≡ [])
is_nil_list_iff [] = ((λ _. refl), λ _. refl)
is_nil_list_iff (x ∷ xs) = ((λ h. absurd cc), λ h. absurd cc)

run-assemble :
    (crypto : Crypto) (p : Probe) (domain : Bytes) (res : MxResult)
    → HasMail p domain res
    → run_sequential crypto p domain
      ≡ assemble crypto (map (visit crypto p) (unique_mx_hosts res.records))
unfolding run_sequential
run-assemble crypto p domain res mail =
    let nil : is_nil_list res.records ≡ false = elim (Bool-cases (is_nil_list res.records)) [
      | inl nil ↦ absurd (mail.some_mx ((is_nil_list_iff res.records).0 nil))
      | inr solid ↦ solid
    ] in
    let null : is_null_mx res.records ≡ false = elim (Bool-cases (is_null_mx res.records)) [
      | inl null ↦ absurd (mail.not_null (is_null_mx-IsNull res.records null))
      | inr solid ↦ solid
    ] in
    rw (mail.answered, nil, null)

starttls_feature-IsStarttls :
    (crypto : Crypto) (p : Probe) (hosts : List Bytes)
    → IsStarttls p hosts (some (starttls_feature (map (visit crypto p) hosts)).status)
starttls_feature-IsStarttls crypto p hosts =
    let reached = any_connect_iff crypto p hosts in
    let accepted = all_accepted_iff crypto p hosts in
    record {
      when_present = ground (arith, reached, accepted);
      when_misconfigured = ground (arith, reached, accepted);
      when_unknown = ground (arith, reached, accepted);
    }

dane_feature-IsDane :
    (crypto : Crypto) (p : Probe) (hosts : List Bytes)
    → IsDane crypto p hosts (some (dane_feature crypto (map (visit crypto p) hosts)).status)
dane_feature-IsDane crypto p hosts =
    let published = any_tlsa_iff crypto p hosts in
    let matched = all_match_iff crypto p hosts in
    record {
      when_present = ground (arith, published, matched);
      when_misconfigured = ground (arith, published, matched);
      when_absent = ground (arith, published, matched);
    }

-- For a domain with MX records that are not the null MX, and whatever order the goroutines finish in
-- as long as each is served: "starttls" is present exactly when some host connects and every host
-- accepts STARTTLS, misconfigured exactly when some host connects and not every one accepts it, and
-- unknown exactly when no host connects. The hosts are the names of the MX records in
-- lower case, without a dot at their ends, each once.
pub run-IsStarttls :
    (crypto : Crypto) (p : Probe) (first second : Order) (domain : Bytes) (res : MxResult)
    → Serves first
    → Serves second
    → HasMail p domain res
    → (hosts : List Bytes) × AreHosts res.records hosts
      × IsStarttls p hosts (status_of (codes "starttls") (run crypto p first second domain))
unfolding assemble str_eq
run-IsStarttls crypto p first second domain res s1 s2 mail =
    let hosts = unique_mx_hosts res.records in
    (
      hosts,
      unique_mx_hosts-AreHosts res.records,
      rw
          (
            run-run_sequential crypto p first second domain s1 s2,
            run-assemble crypto p domain res mail,
          )
          (starttls_feature-IsStarttls crypto p hosts),
    )

-- For a domain with MX records that are not the null MX, and whatever order the goroutines finish in
-- as long as each is served: "dane" is present exactly when some host publishes TLSA records and
-- every host publishes one that matches the certificate which that host presents, misconfigured
-- exactly when some host publishes and not every one has such a match, and absent exactly when no
-- host publishes. The hosts are the names of the MX records in lower case, without a dot at their
-- ends, each once.
pub run-IsDane :
    (crypto : Crypto) (p : Probe) (first second : Order) (domain : Bytes) (res : MxResult)
    → Serves first
    → Serves second
    → HasMail p domain res
    → (hosts : List Bytes) × AreHosts res.records hosts
      × IsDane crypto p hosts (status_of (codes "dane") (run crypto p first second domain))
unfolding assemble str_eq
run-IsDane crypto p first second domain res s1 s2 mail =
    let hosts = unique_mx_hosts res.records in
    (
      hosts,
      unique_mx_hosts-AreHosts res.records,
      rw
          (
            run-run_sequential crypto p first second domain s1 s2,
            run-assemble crypto p domain res mail,
          )
          (dane_feature-IsDane crypto p hosts),
    )
