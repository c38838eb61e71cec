-- ===== src/Cli/Suite/Names.antt =====
-- The names of the features that each probe of a run reports.
use mailsec_probe.Outcome.{returned, >>=-eq-returned, returned_inj}
use mailsec_probe.Signals.{Feature}
use mailsec_probe.Text.{Bytes, codes}
use mailsec_probe.Common.{◌≡◌, List, map, arith, refl, sym, ap, ◌∙◌, [], ◌∷◌}
use mailsec_probe.Cli.Suite.{
  AnyDetails, of_active, AnyProbe, spf_probe, dmarc_probe, dkim_probe, skipped_dkim_probe, mx_probe,
  sts_probe, tlsrpt_probe, bimi_probe, dnssec_probe, active_probe, Surroundings, any_feature,
  run_probe, of_dkim, only,
}
use mailsec_probe.MtaTls.{Crypto}
use mailsec_probe.MtaTls.Features.{assemble}
use mailsec_probe.MtaTls.Run.{Order}

abbrev pub names_of : {D : Type 0} → List (Feature D) → List Bytes
names_of fs = map (λ f. f.name) fs

spf_name :
    (p : mailsec_probe.Spf.Probe) (d : Bytes) → (mailsec_probe.Spf.run_one p d).name ≡ codes "spf"
unfolding mailsec_probe.Spf.run_one
spf_name p d = ground arith

dmarc_name :
    (p : mailsec_probe.Dmarc.Probe) (d : Bytes)
    → (mailsec_probe.Dmarc.run_one p d).name ≡ codes "dmarc"
unfolding mailsec_probe.Dmarc.run_one
dmarc_name p d = ground arith

mx_name :
    (p : mailsec_probe.Mx.Probe) (d : Bytes) → (mailsec_probe.Mx.run_one p d).name ≡ codes "mx"
unfolding mailsec_probe.Mx.run_one
mx_name p d = ground arith

sts_name :
    (p : mailsec_probe.MtaSts.Probe) (d : Bytes)
    → (mailsec_probe.MtaSts.run_one p d).name ≡ codes "mta-sts"
unfolding mailsec_probe.MtaSts.run_one
sts_name p d = ground arith

tlsrpt_name :
    (p : mailsec_probe.TlsRpt.Probe) (d : Bytes)
    → (mailsec_probe.TlsRpt.run_one p d).name ≡ codes "tls-rpt"
unfolding mailsec_probe.TlsRpt.run_one
tlsrpt_name p d = ground arith

bimi_name :
    (p : mailsec_probe.Bimi.Probe) (d : Bytes)
    → (mailsec_probe.Bimi.run_one p d).name ≡ codes "bimi"
unfolding mailsec_probe.Bimi.run_one
bimi_name p d = ground arith

dnssec_name :
    (p : mailsec_probe.DnsSec.Probe) (d : Bytes)
    → (mailsec_probe.DnsSec.run_one p d).name ≡ codes "dnssec"
unfolding mailsec_probe.DnsSec.run_one
dnssec_name p d = ground arith

active_names :
    (crypto : Crypto) (p : mailsec_probe.MtaTls.Run.Probe) (first second : Order) (d : Bytes)
    → names_of (mailsec_probe.MtaTls.Run.run crypto p first second d)
      ≡ codes "starttls" ∷ codes "dane" ∷ []
unfolding mailsec_probe.MtaTls.Run.run assemble
active_names crypto p first second d = ground arith

names_of-any_feature :
    {A : Type 0} (wrap : A → AnyDetails) (fs : List (Feature A))
    → names_of (map (any_feature wrap) fs) ≡ names_of fs
names_of-any_feature wrap [] = refl
names_of-any_feature wrap (f ∷ fs) = ap (◌∷◌ f.name) (names_of-any_feature wrap fs)

-- The names of the features of a probe.
abbrev pub probe_names : AnyProbe → List Bytes
probe_names (spf_probe p) = codes "spf" ∷ []
probe_names (dmarc_probe p) = codes "dmarc" ∷ []
probe_names (dkim_probe p) = codes "dkim" ∷ []
probe_names skipped_dkim_probe = codes "dkim" ∷ []
probe_names (mx_probe p) = codes "mx" ∷ []
probe_names (sts_probe p) = codes "mta-sts" ∷ []
probe_names (tlsrpt_probe p) = codes "tls-rpt" ∷ []
probe_names (bimi_probe p) = codes "bimi" ∷ []
probe_names (dnssec_probe p) = codes "dnssec" ∷ []
probe_names (active_probe p) = codes "starttls" ∷ codes "dane" ∷ []

-- A probe with one feature.
only-names :
    {A : Type 0} (wrap : A → AnyDetails) (f : Feature A) (fs : List (Feature AnyDetails))
    (n : Bytes)
    → returned (only wrap f) ≡ returned fs
    → f.name ≡ n
    → names_of fs ≡ n ∷ []
only-names wrap f fs n h e = ap names_of (sym (returned_inj h)) ∙ ap (λ m. m ∷ []) e

-- A probe that returns reports the features of its names.
pub run_probe-names :
    (env : Surroundings) (p : AnyProbe) (d : Bytes) (fs : List (Feature AnyDetails))
    → run_probe env p d ≡ returned fs
    → names_of fs ≡ probe_names p
unfolding run_probe
run_probe-names env (spf_probe p) d fs h = only-names _ _ fs _ h (spf_name p d)
run_probe-names env (dmarc_probe p) d fs h = only-names _ _ fs _ h (dmarc_name p d)
run_probe-names env (dkim_probe p) d fs h =
    let (f, e, same) = >>=-eq-returned (mailsec_probe.Dkim.Scan.run_one p d) _ h in
    only-names of_dkim f fs _ same (mailsec_probe.Dkim.Scan.Named.run_one-name p d f e)
run_probe-names env skipped_dkim_probe d fs h = ap names_of (sym (returned_inj h))
run_probe-names env (mx_probe p) d fs h = only-names _ _ fs _ h (mx_name p d)
run_probe-names env (sts_probe p) d fs h = only-names _ _ fs _ h (sts_name p d)
run_probe-names env (tlsrpt_probe p) d fs h = only-names _ _ fs _ h (tlsrpt_name p d)
run_probe-names env (bimi_probe p) d fs h = only-names _ _ fs _ h (bimi_name p d)
run_probe-names env (dnssec_probe p) d fs h = only-names _ _ fs _ h (dnssec_name p d)
run_probe-names env (active_probe p) d fs h =
    ap names_of (sym (returned_inj h))
    ∙ names_of-any_feature of_active
        (mailsec_probe.MtaTls.Run.run env.crypto p env.first env.second d)
    ∙ active_names env.crypto p env.first env.second d
