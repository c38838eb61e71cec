-- ===== src/Cli/Suite.antt =====
-- The probes that a run observes with, under the interface `Probe` of
-- internal/classifier/classifier.go, and the stub of internal/cli/cli.go for a DKIM scan that is off.
pub mod Names
use mailsec_probe.MtaTls.Run.{Order}
use mailsec_probe.MtaTls.{Crypto}
use mailsec_probe.Outcome.{Outcome, returned, ◌>>=◌}
use mailsec_probe.Signals.{skipped, Feature}
use mailsec_probe.Text.{Bytes, codes}
use mailsec_probe.Common.{Option, none, some, List, [], ◌∷◌, map}

-- The details of a feature, by probe.
pub data AnyDetails : Type 0 where
  of_spf : mailsec_probe.Spf.Details → AnyDetails
  of_dmarc : mailsec_probe.Dmarc.Details → AnyDetails
  of_dkim : mailsec_probe.Dkim.Scan.Details → AnyDetails
  of_mx : mailsec_probe.Mx.Details → AnyDetails
  of_sts : mailsec_probe.MtaSts.Details → AnyDetails
  of_tlsrpt : mailsec_probe.TlsRpt.Details → AnyDetails
  of_bimi : mailsec_probe.Bimi.Details → AnyDetails
  of_dnssec : mailsec_probe.DnsSec.Details → AnyDetails
  of_active : mailsec_probe.MtaTls.Report.Details → AnyDetails
  of_skipped : Bytes → AnyDetails

-- `skippedDKIMDetails.Summary`.
abbrev pub skipped_summary : Bytes → Bytes
skipped_summary [] = codes "scan disabled"
skipped_summary (c ∷ reason) = c ∷ reason

abbrev active_summary : mailsec_probe.MtaTls.Report.Details → Bytes
active_summary (mailsec_probe.MtaTls.Report.starttls_details rs) =
    mailsec_probe.MtaTls.Report.starttls_summary rs
active_summary (mailsec_probe.MtaTls.Report.dane_details rs) =
    mailsec_probe.MtaTls.Report.dane_summary rs

-- The method `Summary`, which every type of details has.
unfoldable pub any_summary : AnyDetails → Option Bytes
any_summary (of_spf d) = some (mailsec_probe.Spf.summary d)
any_summary (of_dmarc d) = some (mailsec_probe.Dmarc.summary d)
any_summary (of_dkim d) = some (mailsec_probe.Dkim.Scan.summary d)
any_summary (of_mx d) = some (mailsec_probe.Mx.summary d)
any_summary (of_sts d) = some (mailsec_probe.MtaSts.summary d)
any_summary (of_tlsrpt d) = some (mailsec_probe.TlsRpt.summary d)
any_summary (of_bimi d) = some (mailsec_probe.Bimi.summary d)
any_summary (of_dnssec d) = some (mailsec_probe.DnsSec.summary d)
any_summary (of_active d) = some (active_summary d)
any_summary (of_skipped reason) = some (skipped_summary reason)

pub data AnyProbe : Type 0 where
  spf_probe : mailsec_probe.Spf.Probe → AnyProbe
  dmarc_probe : mailsec_probe.Dmarc.Probe → AnyProbe
  dkim_probe : mailsec_probe.Dkim.Scan.Probe → AnyProbe
  skipped_dkim_probe : AnyProbe
  mx_probe : mailsec_probe.Mx.Probe → AnyProbe
  sts_probe : mailsec_probe.MtaSts.Probe → AnyProbe
  tlsrpt_probe : mailsec_probe.TlsRpt.Probe → AnyProbe
  bimi_probe : mailsec_probe.Bimi.Probe → AnyProbe
  dnssec_probe : mailsec_probe.DnsSec.Probe → AnyProbe
  active_probe : mailsec_probe.MtaTls.Run.Probe → AnyProbe

-- What a run of the active probe takes of its surroundings.
pub record Surroundings : Type 0 where
  pub crypto : Crypto
  pub first : Order
  pub second : Order

abbrev pub with_details : {A B : Type 0} → (A → B) → Option A → Option B
with_details wrap none = none
with_details wrap (some d) = some (wrap d)

abbrev pub any_feature : {A : Type 0} → (A → AnyDetails) → Feature A → Feature AnyDetails
any_feature wrap f = record {
  name = f.name;
  status = f.status;
  confidence = f.confidence;
  reasons = f.reasons;
  details = with_details wrap f.details;
  signals = f.signals;
}

abbrev only : {A : Type 0} → (A → AnyDetails) → Feature A → List (Feature AnyDetails)
only wrap f = any_feature wrap f ∷ []

-- `skippedDKIMProbe.Run`.
abbrev pub skipped_dkim : Feature AnyDetails
skipped_dkim = record {
  name = codes "dkim";
  status = skipped;
  confidence = 0;
  reasons = [];
  details = some (of_skipped (codes "DKIM scan disabled (--no-dkim)"));
  signals = [];
}

-- The method `Run` of each probe. Only the DKIM probe can panic.
unfoldable pub run_probe : Surroundings → AnyProbe → Bytes → Outcome (List (Feature AnyDetails))
run_probe env (spf_probe p) d = returned (only of_spf (mailsec_probe.Spf.run_one p d))
run_probe env (dmarc_probe p) d = returned (only of_dmarc (mailsec_probe.Dmarc.run_one p d))
run_probe env (dkim_probe p) d =
    mailsec_probe.Dkim.Scan.run_one p d >>= λ f. returned (only of_dkim f)
run_probe env skipped_dkim_probe d = returned (skipped_dkim ∷ [])
run_probe env (mx_probe p) d = returned (only of_mx (mailsec_probe.Mx.run_one p d))
run_probe env (sts_probe p) d = returned (only of_sts (mailsec_probe.MtaSts.run_one p d))
run_probe env (tlsrpt_probe p) d = returned (only of_tlsrpt (mailsec_probe.TlsRpt.run_one p d))
run_probe env (bimi_probe p) d = returned (only of_bimi (mailsec_probe.Bimi.run_one p d))
run_probe env (dnssec_probe p) d = returned (only of_dnssec (mailsec_probe.DnsSec.run_one p d))
run_probe env (active_probe p) d =
    returned (
      map (any_feature of_active)
        (mailsec_probe.MtaTls.Run.run env.crypto p env.first env.second d))
