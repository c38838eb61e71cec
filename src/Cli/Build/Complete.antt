-- ===== src/Cli/Build/Complete.antt =====
-- `buildProbes` of internal/cli/cli.go with `Run` of internal/classifier/classifier.go: which features
-- the report of a domain has.
use mailsec_probe.Cli.Build.{
  RootOpts, World, build_transports, build_dnssec_probe, build_dkim_probe, build_probes, build,
  all_probes, selectors_file, merged_selectors, scanning,
}
use mailsec_probe.Cli.Suite.{AnyDetails, AnyProbe, Surroundings, run_probe, skipped_dkim_probe}
use mailsec_probe.Cli.Suite.Names.{probe_names, names_of, run_probe-names}
use mailsec_probe.Common.{
  if◌then◌else◌, Bool-cases, ◌≡◌, refl, sym, ap, ◌∙◌, ◌⊎◌, inl, inr, Bool, List, [], ◌∷◌, ◌++◌, All,
  ltb, ℕ, ◌≢◌, true, false, map, arith,
}
use mailsec_probe.Dkim.Build.{wrap_error, and_then, load_selectors}
use mailsec_probe.DnsClient.{Client}
use mailsec_probe.Outcome.{Outcome, returned, panicked}
use mailsec_probe.Signals.{Feature}
use mailsec_probe.Text.{Bytes, codes, str_eq}
use mailsec_probe.Classifier.{feature_order, before_feature, flat}
use mailsec_probe.FanOut.{IsComplete}
use mailsec_probe.FanOut.Order.{fan_out-map}
use mailsec_probe.Sort.{insert_sorted, sort_stable}

-- What a probe contributes where it returns. A panic ends the program: see the command as a whole.
abbrev pub returned_or_nil {ℓ} : {A : Type ℓ} → Outcome (List A) → List A
returned_or_nil (returned xs) = xs
returned_or_nil panicked = []

abbrev pub as_probe : Surroundings → AnyProbe → mailsec_probe.Classifier.Probe AnyDetails
as_probe env p = λ d. returned_or_nil (run_probe env p d)

-- The probe returns.
abbrev pub Returns : Surroundings → Bytes → AnyProbe → Type 0
Returns env d p = (fs : List (Feature AnyDetails)) × (run_probe env p d ≡ returned fs)

-- The names of a report, in its order; STARTTLS and DANE stand behind MX.
unfoldable pub report_names : Bool → List Bytes
report_names active =
    codes "spf"
    ∷ codes "dmarc"
    ∷ codes "dkim"
    ∷ codes "mx"
    ∷ ((if active then codes "starttls" ∷ codes "dane" ∷ [] else [])
        ++ codes "mta-sts" ∷ codes "tls-rpt" ∷ codes "bimi" ∷ codes "dnssec" ∷ [])

and_then-inl {ℓ κ} :
    {A : Type ℓ} {B : Type κ} (o : A ⊎ Bytes) (next : A → B ⊎ Bytes) (b : B)
    → and_then o next ≡ inl b
    → (a : A) × (o ≡ inl a) × (next a ≡ inl b)
and_then-inl (inl a) next b h = (a, refl, h)
and_then-inl (inr e) next b h = cc

inl_inj : {A B : Type 0} {a b : A} → ◌≡◌ {A = A ⊎ B} (inl a) (inl b) → a ≡ b
inl_inj h = cc

flat_names : List AnyProbe → List Bytes
flat_names [] = []
flat_names (p ∷ probes) = probe_names p ++ flat_names probes

scanning-names :
    (w : World) (d : Client) (opts : RootOpts) (p : AnyProbe)
    → scanning w d opts ≡ inl p
    → probe_names p ≡ codes "dkim" ∷ []
scanning-names w d opts p h =
    let (document, _, h1) = and_then-inl (selectors_file w opts.dkim_sel_file) _ p h in
    let (base, _, h2) = and_then-inl (load_selectors w.rules document) _ p h1 in
    let (dp, _, h3) =
      and_then-inl
        (mailsec_probe.Dkim.Build.new_probe w.rules d (merged_selectors opts base) opts.include_raw)
        _ p h2 in
    ap probe_names (sym (inl_inj h3))

dkim-names :
    (w : World) (d : Client) (opts : RootOpts) (p : AnyProbe)
    → build_dkim_probe w d opts ≡ inl p
    → probe_names p ≡ codes "dkim" ∷ []
unfolding build_dkim_probe
dkim-names w d opts p h = elim (Bool-cases opts.no_dkim) [
  | inl off ↦
      let h1 : ◌≡◌ {A = AnyProbe ⊎ Bytes} (inl skipped_dkim_probe) (inl p) = rw off at h in
      ap probe_names (sym (inl_inj h1))
  | inr on ↦ scanning-names w d opts p (rw on at h)
]

-- The names in the order of the probes.
built_names : Bool → List Bytes
built_names active =
    codes "spf"
    ∷ codes "dmarc"
    ∷ codes "dkim"
    ∷ codes "mx"
    ∷ codes "mta-sts"
    ∷ codes "tls-rpt"
    ∷ codes "bimi"
    ∷ codes "dnssec"
    ∷ (if active then codes "starttls" ∷ codes "dane" ∷ [] else [])

all_probes-names :
    (w : World) (d : Client) (opts : RootOpts) (dkim : AnyProbe)
    (dnssec : mailsec_probe.DnsSec.Probe)
    → probe_names dkim ≡ codes "dkim" ∷ []
    → flat_names (all_probes w d opts dkim dnssec) ≡ built_names opts.active
unfolding flat_names built_names
all_probes-names w d opts dkim dnssec h = elim (Bool-cases opts.active) [
  | inl on ↦ rw (on, h)
  | inr off ↦ rw (off, h)
]

build-names :
    (w : World) (opts : RootOpts) (probes : List AnyProbe)
    → build w opts ≡ inl probes
    → flat_names probes ≡ built_names opts.active
unfolding build build_probes
build-names w opts probes h =
    let (t, _, h1) =
      and_then-inl (wrap_error (codes "init DNS transports: ") (build_transports w opts)) _ probes
        h in
    let (dkim, h2, h3) = and_then-inl (build_dkim_probe w t.0 opts) _ probes h1 in
    let (dnssec, _, h4) = and_then-inl (build_dnssec_probe w t.0 t.1 opts) _ probes h3 in
    ap flat_names (sym (inl_inj h4))
    ∙ all_probes-names w t.0 opts dkim dnssec (dkim-names w t.0 opts dkim h2)

before_name : Bytes → Bytes → Bool
before_name a b = ltb (feature_order a) (feature_order b)

names_of-insert_sorted :
    (f : Feature AnyDetails) (fs : List (Feature AnyDetails))
    → names_of (insert_sorted before_feature f fs) ≡ insert_sorted before_name f.name (names_of fs)
unfolding insert_sorted before_name
names_of-insert_sorted f [] = refl
names_of-insert_sorted f (g ∷ fs) = ground (arith, names_of-insert_sorted f fs)

names_of-sort_stable :
    (fs : List (Feature AnyDetails))
    → names_of (sort_stable before_feature fs) ≡ sort_stable before_name (names_of fs)
unfolding sort_stable
names_of-sort_stable [] = refl
names_of-sort_stable (f ∷ fs) =
    names_of-insert_sorted f (sort_stable before_feature fs)
    ∙ ap (insert_sorted before_name f.name) (names_of-sort_stable fs)

names_of-append :
    (fs gs : List (Feature AnyDetails)) → names_of (fs ++ gs) ≡ names_of fs ++ names_of gs
names_of-append [] gs = refl
names_of-append (f ∷ fs) gs = ap (◌∷◌ f.name) (names_of-append fs gs)

names_of-flat :
    (env : Surroundings) (d : Bytes) (probes : List AnyProbe)
    → All (Returns env d) probes
    → names_of (flat (map (λ p. p d) (map (as_probe env) probes))) ≡ flat_names probes
unfolding flat flat_names
names_of-flat env d [] h = refl
names_of-flat env d (p ∷ probes) ((fs, e), h) = rw e (
    names_of-append fs (flat (map (λ q. q d) (map (as_probe env) probes)))
    ∙ ap (λ ns. ns ++ names_of (flat (map (λ q. q d) (map (as_probe env) probes))))
        (run_probe-names env p d fs e)
    ∙ ap (λ ns. probe_names p ++ ns) (names_of-flat env d probes h))

sorted_names : (active : Bool) → sort_stable before_name (built_names active) ≡ report_names active
unfolding sort_stable before_name built_names report_names feature_order str_eq
sorted_names true = refl
sorted_names false = refl

-- With any options that the program accepts, and on any domain on which each probe returns: whatever
-- order the probes finish in, the report has exactly the features SPF, DMARC, DKIM, MX, then STARTTLS
-- and DANE where the active probe is asked for, MTA-STS, TLS-RPT, BIMI and DNSSEC, in this order, and
-- each once.
pub run-report_names :
    (w : World) (opts : RootOpts) (probes : List AnyProbe) (env : Surroundings) (domain : Bytes)
    (now : ℕ) (schedule : List ℕ)
    → build w opts ≡ inl probes
    → domain ≢ []
    → All (Returns env domain) probes
    → IsComplete (map (as_probe env) probes) schedule
    → names_of
        (mailsec_probe.Classifier.run (map (as_probe env) probes) domain now schedule).features
      ≡ report_names opts.active
unfolding mailsec_probe.Classifier.run
run-report_names w opts probes env [] now schedule built solid returns complete =
    absurd (solid refl)
run-report_names w opts probes env (c ∷ domain) now schedule built solid returns complete =
    let d = c ∷ domain in
    let observed = map (as_probe env) probes in
    let same =
      fan_out-map (λ (p : mailsec_probe.Classifier.Probe AnyDetails). p d) [] observed schedule
        complete in
    ap (λ per. names_of (sort_stable before_feature (flat per))) same
    ∙ names_of-sort_stable (flat (map (λ p. p d) observed))
    ∙ ap (sort_stable before_name)
        (names_of-flat env d probes returns ∙ build-names w opts probes built)
    ∙ sorted_names opts.active
