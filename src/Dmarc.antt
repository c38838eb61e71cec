-- ===== src/Dmarc.antt =====
-- internal/probe/dmarc/dmarc.go: the DMARC record at _dmarc.<domain>, and its report addresses.
pub mod Reports
pub mod Schemes
pub mod Verdict
use mailsec_probe.Common.{
  ltb, leb, if◌then◌else◌, ℕ, Bool, true, false, not, ◌&&◌, Option, none, some, List, [], ◌∷◌, ◌++◌,
}
use mailsec_probe.DnsClient.{TxtResult, Client}
use mailsec_probe.HttpFetcher.{Fetcher}
use mailsec_probe.Signals.{
  Status, present, absent, unknown, misconfigured, dns_txt, Signal, Feature, lookup_signal, feature,
}
use mailsec_probe.Text.{
  Bytes, codes, str_eq, is_empty, trim_space, to_lower, has_prefix, split, join,
}
use mailsec_probe.TxtTag.{Pair, get, pick_by_version}

pub record RuaEndpoint : Type 0 where
  pub uri : Bytes
  pub scheme : Bytes
  pub checked : Bool
  pub reachable : Bool
  pub status : ℕ
  pub err : Bytes

pub record Details : Type 0 where
  pub policy : Bytes
  pub subdomain_policy : Bytes
  pub percent : Bytes
  pub aggregate_reports : Bytes
  pub failure_reports : Bytes
  pub aspf : Bytes
  pub adkim : Bytes
  pub rua_endpoints : List RuaEndpoint
  pub raw : Bytes

-- A nil fetcher is `none`.
pub record Probe : Type 0 where
  pub dns : Client
  pub http : Option Fetcher
  pub enable_rua_check : Bool
  pub include_raw : Bool

unfoldable pub empty_as : Bytes → Bytes → Bytes
empty_as [] fallback = fallback
empty_as (c ∷ s) fallback = c ∷ s

-- The loop of `summarizeRUA` over its two variables.
abbrev rua_round : RuaEndpoint → Bool × Bool → Bool × Bool
rua_round e (any_checked, all_reachable) =
    if not e.checked then (any_checked, all_reachable) else (true, e.reachable && all_reachable)

unfoldable pub summarize_rua_from : List RuaEndpoint → Bool × Bool → Bool × Bool
summarize_rua_from [] state = state
summarize_rua_from (e ∷ eps) state = summarize_rua_from eps (rua_round e state)

unfoldable pub summarize_rua : List RuaEndpoint → Bool × Bool
unfolding summarize_rua_from
summarize_rua eps = summarize_rua_from eps (false, true)

-- "rua", with a check mark or a cross (three bytes each of UTF-8) where an endpoint was checked.
abbrev rua_tag : Bool × Bool → Bytes
rua_tag (false, reachable) = codes "rua"
rua_tag (true, true) = codes "rua" ++ 0xe2 ∷ 0x9c ∷ 0x93 ∷ []
rua_tag (true, false) = codes "rua" ++ 0xe2 ∷ 0x9c ∷ 0x97 ∷ []

abbrev part_if : Bool → Bytes → List Bytes
part_if true part = part ∷ []
part_if false part = []

pub summary : Details → Bytes
unfolding empty_as summarize_rua str_eq join
summary d =
    let sp = not (is_empty d.subdomain_policy) && not (str_eq d.subdomain_policy d.policy) in
    let pct = not (is_empty d.percent) && not (str_eq d.percent (codes "100")) in
    join
      ((codes "p=" ++ empty_as d.policy (codes "?"))
        ∷ (part_if sp (codes "sp=" ++ d.subdomain_policy)
            ++ (part_if pct (codes "pct=" ++ d.percent)
                ++ part_if (not (is_empty d.aggregate_reports))
                    (rua_tag (summarize_rua d.rua_endpoints)))))
      (codes ", ")

unfoldable pub scheme_of : Bytes → Bytes
unfolding to_lower has_prefix
scheme_of uri =
    let lower = to_lower uri in
    if has_prefix lower (codes "mailto:")
    then codes "mailto"
    else if has_prefix lower (codes "https:")
    then codes "https"
    else if has_prefix lower (codes "http:")
    then codes "http"
    else codes "other"

abbrev unchecked : Bytes → RuaEndpoint
unchecked uri = record {
  uri = uri;
  scheme = scheme_of uri;
  checked = false;
  reachable = false;
  status = 0;
  err = [];
}

-- Any 2xx or 3xx is reachable.
abbrev head_result : RuaEndpoint → ℕ × Option Bytes → RuaEndpoint
head_result ep (status, some e) = record ep {
  checked = true;
  status = status;
  err = e;
  reachable = false;
}
head_result ep (status, none) = record ep {
  checked = true;
  status = status;
  reachable = leb 200 status && ltb status 400;
}

abbrev probe_endpoint : Bool → Option Fetcher → RuaEndpoint → RuaEndpoint
probe_endpoint enabled none ep = ep
probe_endpoint enabled (some fetcher) ep =
    if enabled && str_eq ep.scheme (codes "https") then head_result ep (fetcher.head ep.uri) else ep

-- What one round of the loop of `checkRUAReachability` appends.
pub check_uri : Option Fetcher → Bool → Bytes → List RuaEndpoint
unfolding trim_space scheme_of str_eq
check_uri fetcher enabled raw =
    let uri = trim_space raw in
    if is_empty uri then [] else probe_endpoint enabled fetcher (unchecked uri) ∷ []

pub check_uris : List Bytes → Option Fetcher → Bool → List RuaEndpoint
unfolding check_uri
check_uris [] fetcher enabled = []
check_uris (raw ∷ raws) fetcher enabled =
    check_uri fetcher enabled raw ++ check_uris raws fetcher enabled

unfoldable pub check_rua_reachability : Bytes → Option Fetcher → Bool → List RuaEndpoint
unfolding check_uris split
check_rua_reachability rua_value fetcher enabled = check_uris (split rua_value b',') fetcher enabled

abbrev dmarc_feature : Status → ℕ → List Bytes → Option Details → Signal → Feature Details
dmarc_feature status confidence reasons details sig =
    feature (codes "dmarc") status confidence reasons details (sig ∷ [])

-- The switch on the policy: the status, and the reasons behind the first one.
unfoldable pub judge : Bytes → Status × List Bytes
unfolding str_eq
judge policy =
    if is_empty policy
    then (misconfigured, codes "DMARC record lacks required p= tag" ∷ [])
    else if str_eq policy (codes "none")
    then (present, codes "monitor-only (no enforcement)" ∷ [])
    else (present, [])

abbrev details_of : Probe → Bytes → List Pair → Details
details_of p raw pairs =
    let rua = get pairs (codes "rua") in
    record {
      policy = get pairs (codes "p");
      subdomain_policy = get pairs (codes "sp");
      percent = get pairs (codes "pct");
      aggregate_reports = rua;
      failure_reports = get pairs (codes "ruf");
      aspf = get pairs (codes "aspf");
      adkim = get pairs (codes "adkim");
      rua_endpoints =
          if is_empty rua then [] else check_rua_reachability rua p.http p.enable_rua_check;
      raw = if p.include_raw then raw else [];
    }

abbrev judged : Details → Status × List Bytes → Signal → Feature Details
judged d (status, reasons) sig =
    dmarc_feature status 95 ((codes "p=" ++ empty_as d.policy (codes "(missing)")) ∷ reasons)
      (some d) sig

abbrev on_pick : Probe → Bytes → Option (Bytes × List Pair) → Signal → Feature Details
on_pick p target none sig =
    dmarc_feature absent 90 ((codes "no v=DMARC1 TXT at " ++ target) ∷ []) none sig
on_pick p target (some (raw, pairs)) sig =
    let d = details_of p raw pairs in judged d (judge d.policy) sig

abbrev observe : Probe → Bytes → TxtResult × Option Bytes → Feature Details
observe p target (res, some e) =
    dmarc_feature unknown 0 ((codes "DMARC TXT lookup failed: " ++ e) ∷ []) none
      (lookup_signal dns_txt target (some e) [])
observe p target (res, none) =
    on_pick p target (pick_by_version res.records (codes "DMARC1"))
      (lookup_signal dns_txt target none res.records)

unfoldable pub run_one : Probe → Bytes → Feature Details
unfolding pick_by_version get empty_as check_rua_reachability judge
run_one p domain =
    let target = codes "_dmarc." ++ domain in observe p target (p.dns.lookup_txt target)
