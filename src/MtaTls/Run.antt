-- ===== src/MtaTls/Run.antt =====
-- internal/probe/mtatls/mtatls.go: `Run` with its two fan-outs over the MX hosts, and its verdicts.
-- A time limit of errgroup on the goroutines at work is an argument of the order in which they finish.
pub mod Sequential
pub mod Verdict
pub mod Flags
pub mod Hosts
use mailsec_probe.MtaTls.Report.{Details}
use mailsec_probe.Common.{
  leb, ◌==◌, if◌then◌else◌, ℕ, ◌*◌, Bool, false, ◌&&◌, ◌||◌, Option, none, List, [], ◌∷◌, ◌++◌, map,
  true, some,
}
use mailsec_probe.Dedupe.{dedupe_by}
use mailsec_probe.DnsClient.{MxRecord, Client, MxResult}
use mailsec_probe.MtaTls.{no_result, MxProbeResult, Dialer, Crypto}
use mailsec_probe.FanOut.{fan_out}
use mailsec_probe.MtaTls.Chain.{verify_chain}
use mailsec_probe.MtaTls.Dial.{Network, new_dialer}
use mailsec_probe.Text.{Bytes, codes, str_eq, is_empty, to_lower, trim_suffix}
use mailsec_probe.MtaTls.Features.{Looked, no_look, tlsa_name, Seen, assemble}
use mailsec_probe.Signals.{Status, absent, unknown, Feature, feature}

pub record Probe : Type 0 where
  pub dns : Client
  pub dialer : Dialer
  pub port : ℕ
  pub our_name : Bytes
  pub concurrency : ℕ
  pub include_raw : Bool

-- `New`, over a network.
abbrev default_timeout : ℕ
default_timeout = 10 * 1000

abbrev pub default_concurrency : ℕ
default_concurrency = 4

unfoldable pub new_probe : Network → Client → Probe
unfolding new_dialer
new_probe net d = record {
  dns = d;
  dialer = new_dialer net default_timeout;
  port = 25;
  our_name = codes "mailsec-probe.local";
  concurrency = default_concurrency;
  include_raw = false;
}

-- A concurrency of zero or less, held as 0, is replaced.
abbrev pub limit : Probe → ℕ
limit p = if leb p.concurrency 0 then default_concurrency else p.concurrency

-- `uniqueMXHosts`: "." is dropped as the empty name is.
abbrev pub mx_name : MxRecord → Bytes
mx_name m =
    let h = trim_suffix (to_lower m.host) (codes ".") in if str_eq h (codes ".") then [] else h

unfoldable pub unique_mx_hosts : List MxRecord → List Bytes
unfolding dedupe_by trim_suffix to_lower str_eq
unique_mx_hosts records = dedupe_by (λ h. h) (map mx_name records)

unfoldable pub is_null_mx : List MxRecord → Bool
unfolding str_eq
is_null_mx (r ∷ []) = r.preference == 0 && (is_empty r.host || str_eq r.host (codes "."))
is_null_mx _ = false

abbrev pub dial_host : Probe → Bytes → MxProbeResult
dial_host p h = p.dialer h p.port p.our_name

abbrev pub look : Crypto → Probe → Bytes × MxProbeResult → Looked
look crypto p (h, r) =
    let answered = p.dns.lookup_tlsa (tlsa_name h) in
    let chain = verify_chain crypto r.peer_certificates h in
    record { tlsa = answered.0; tlsa_err = answered.1; pkix_ok = chain.0; pkix_err = chain.1 }

abbrev pub zip {ℓ κ} : {A : Type ℓ} {B : Type κ} → List A → List B → List (A × B)
zip (x ∷ xs) (y ∷ ys) = (x, y) ∷ zip xs ys
zip _ _ = []

abbrev pub seen_of : (Bytes × MxProbeResult) × Looked → Seen
seen_of ((h, r), l) = record { host = h; dialled = r; looked = l }

-- The order in which the goroutines of a fan-out finish, given the limit and the hosts.
abbrev pub Order : Type 0
Order = ℕ → List Bytes → List ℕ

abbrev pub observe : Crypto → Probe → Order → Order → List Bytes → List Seen
observe crypto p first second hosts =
    let results = fan_out (dial_host p) no_result hosts (first (limit p) hosts) in
    let pairs = zip hosts results in
    map seen_of (zip pairs (fan_out (look crypto p) no_look pairs (second (limit p) hosts)))

abbrev both_features : Status → ℕ → Bytes → List (Feature Details)
both_features status confidence reason =
    feature (codes "starttls") status confidence (reason ∷ []) none []
    ∷ feature (codes "dane") status confidence (reason ∷ []) none []
    ∷ []

abbrev no_mail_reason : List MxRecord → Bytes
no_mail_reason records =
    if is_null_mx records
    then codes "null MX (RFC 7505): domain refuses mail"
    else codes "no MX records"

abbrev is_nil_list {ℓ} : {A : Type ℓ} → List A → Bool
is_nil_list [] = true
is_nil_list (x ∷ xs) = false

-- The hosts of an answer are observed by the second argument.
abbrev pub on_mx :
    Crypto → (List Bytes → List Seen) → MxResult × Option Bytes → List (Feature Details)
on_mx crypto observation (res, some e) = both_features unknown 0 (codes "MX lookup failed: " ++ e)
on_mx crypto observation (res, none) =
    if is_nil_list res.records || is_null_mx res.records
    then both_features absent 95 (no_mail_reason res.records)
    else assemble crypto (observation (unique_mx_hosts res.records))

unfoldable pub run : Crypto → Probe → Order → Order → Bytes → List (Feature Details)
unfolding assemble is_null_mx unique_mx_hosts fan_out
run crypto p first second domain =
    on_mx crypto (observe crypto p first second) (p.dns.lookup_mx domain)
