-- ===== src/MtaTls/Features.antt =====
-- internal/probe/mtatls/mtatls.go: the second half of `Run`, from what was observed of each host to
-- the two features.
pub mod Matched
use mailsec_probe.MtaTls.Report.{
  Details, MxSummary, TlsaEntry, DaneMxResult, starttls_details, dane_details,
}
use mailsec_probe.Common.{
  length, get_elem?, if◌then◌else◌, ℕ, Bool, true, false, not, ◌&&◌, ◌||◌, Option, none, some, List,
  [], ◌∷◌, ◌++◌, map,
}
use mailsec_probe.DnsClient.{TlsaRecord, TlsaResult}
use mailsec_probe.MtaTls.{Certificate, MxProbeResult, Crypto}
use mailsec_probe.MtaTls.Chain.{tls_version_name, match_tlsa}
use mailsec_probe.Signals.{
  Status, absent, unknown, misconfigured, Feature, is_nil, feature, present,
}
use mailsec_probe.Text.{Bytes, codes, decimal}

-- What the second fan-out writes for one host, into four slices.
pub record Looked : Type 0 where
  pub tlsa : TlsaResult
  pub tlsa_err : Option Bytes
  pub pkix_ok : Bool
  pub pkix_err : Bytes

abbrev pub no_look : Looked
no_look = record {
  tlsa = record { records = []; ad = false; rcode = 0 };
  tlsa_err = none;
  pkix_ok = false;
  pkix_err = [];
}

abbrev pub tlsa_name : Bytes → Bytes
tlsa_name h = codes "_25._tcp." ++ h

-- The slices, read by one index.
pub record Seen : Type 0 where
  pub host : Bytes
  pub dialled : MxProbeResult
  pub looked : Looked

-- The summary of one host. Without a certificate, the fields of the leaf keep their zero values.
abbrev with_leaf : MxSummary → List Certificate → MxSummary
with_leaf s [] = s
with_leaf s (leaf ∷ chain) = record s {
  leaf_subject = leaf.subject;
  leaf_issuer = leaf.issuer;
  leaf_sans = leaf.dns_names;
  not_before = leaf.not_before;
  not_after = leaf.not_after;
}

abbrev version_of : MxProbeResult → Bytes
version_of r = if r.starttls_accepted then tls_version_name r.tls_version else []

abbrev pub summary_of : Seen → MxSummary
summary_of s =
    with_leaf
      (record {
        host = s.dialled.host;
        starttls_advertised = s.dialled.starttls_advertised;
        starttls_accepted = s.dialled.starttls_accepted;
        tls_version = version_of s.dialled;
        leaf_subject = [];
        leaf_issuer = [];
        leaf_sans = [];
        not_before = [];
        not_after = [];
        pkix_valid = s.looked.pkix_ok;
        pkix_err = s.looked.pkix_err;
        connect_err = s.dialled.connect_err;
        tls_err = s.dialled.tls_err;
        duration_ms = s.dialled.duration_ms;
      })
      s.dialled.peer_certificates

-- The flags `anyConnect` and `allAccepted` of the loop.
unfoldable pub any_connect : List Seen → Bool
any_connect [] = false
any_connect (s ∷ seen) = s.dialled.connected || any_connect seen

unfoldable pub all_accepted : List Seen → Bool
all_accepted [] = true
all_accepted (s ∷ seen) = s.dialled.starttls_accepted && all_accepted seen

abbrev starttls_verdict : Bool → Bool → ℕ → Status × ℕ × Bytes
starttls_verdict reached accepted hosts =
    if not reached
    then (unknown, 10, codes "could not connect to any MX on :25 (firewall or upstream down)")
    else if not accepted
    then (misconfigured, 90, codes "not every MX supports STARTTLS")
    else (present, 90, codes "all " ++ (decimal hosts ++ codes " MX accept STARTTLS"))

abbrev judged : Bytes → Status × ℕ × Bytes → Details → Feature Details
judged name (status, confidence, reason) details =
    feature name status confidence (reason ∷ []) (some details) []

abbrev pub starttls_feature : List Seen → Feature Details
starttls_feature seen =
    judged (codes "starttls")
      (starttls_verdict (any_connect seen) (all_accepted seen) (length seen))
      (starttls_details (map summary_of seen))

abbrev entry_of : TlsaRecord → TlsaEntry
entry_of rec = record {
  usage = rec.usage;
  selector = rec.selector;
  matching_type = rec.matching_type;
}

abbrev show_triple : TlsaRecord → Bytes
show_triple rec =
    decimal rec.usage
    ++ (codes " " ++ (decimal rec.selector ++ (codes " " ++ decimal rec.matching_type)))

abbrev show_found : Option TlsaRecord → Bytes
show_found none = []
show_found (some rec) = show_triple rec

-- The result of `matchTLSA`, an index of the records, or `none` for -1.
abbrev with_match : DaneMxResult → List TlsaRecord → Option ℕ → DaneMxResult
with_match d records none = d
with_match d records (some i) = record d {
  matched = true;
  matched_rr = show_found (get_elem? records i);
}

abbrev pub dane_empty : Bytes → DaneMxResult
dane_empty h = record {
  host = h;
  target = tlsa_name h;
  num_records = 0;
  matched = false;
  matched_rr = [];
  records = [];
  lookup_err = [];
}

abbrev dane_listed : Bytes → List TlsaRecord → DaneMxResult
dane_listed h records = record (dane_empty h) {
  num_records = length records;
  records = map entry_of records;
}

abbrev dane_records : Crypto → Bytes → List Certificate → List TlsaRecord → DaneMxResult
dane_records crypto h chain [] = dane_listed h []
dane_records crypto h chain (rec ∷ records) =
    with_match (dane_listed h (rec ∷ records)) (rec ∷ records)
      (match_tlsa crypto (rec ∷ records) chain)

abbrev dane_looked :
    Crypto → Bytes → List Certificate → List TlsaRecord → Option Bytes → DaneMxResult
dane_looked crypto h chain records (some e) = record (dane_empty h) { lookup_err = e }
dane_looked crypto h chain records none = dane_records crypto h chain records

-- One round of the loop over the hosts.
abbrev pub dane_of : Crypto → Seen → DaneMxResult
dane_of crypto s =
    dane_looked crypto s.host s.dialled.peer_certificates s.looked.tlsa.records s.looked.tlsa_err

-- The flags `anyTLSA` and `allMatch` of the loop. A host whose lookup fails, and one without records,
-- does not set `anyTLSA`; `allMatch` is cleared in the rounds that do not set `Matched`.
abbrev pub publishes : List TlsaRecord → Option Bytes → Bool
publishes [] e = false
publishes (rec ∷ records) e = is_nil e

unfoldable pub any_tlsa : List Seen → Bool
any_tlsa [] = false
any_tlsa (s ∷ seen) = publishes s.looked.tlsa.records s.looked.tlsa_err || any_tlsa seen

unfoldable pub all_match : Crypto → List Seen → Bool
unfolding match_tlsa
all_match crypto [] = true
all_match crypto (s ∷ seen) = (dane_of crypto s).matched && all_match crypto seen

abbrev dane_verdict : Bool → Bool → Status × ℕ × Bytes
dane_verdict published matched =
    if not published
    then (absent, 90, codes "no TLSA records at any _25._tcp.<mx>")
    else if matched
    then (present, 95, codes "all MX with TLSA match the presented certificate")
    else (
      misconfigured,
      90,
      codes "TLSA published but does not match presented certificate at some MX",
    )

abbrev pub dane_feature : Crypto → List Seen → Feature Details
dane_feature crypto seen =
    judged (codes "dane") (dane_verdict (any_tlsa seen) (all_match crypto seen))
      (dane_details (map (dane_of crypto) seen))

unfoldable pub assemble : Crypto → List Seen → List (Feature Details)
unfolding any_connect all_accepted any_tlsa all_match match_tlsa decimal tls_version_name
assemble crypto seen = starttls_feature seen ∷ dane_feature crypto seen ∷ []
