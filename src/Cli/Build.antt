-- ===== src/Cli/Build.antt =====
-- internal/cli/cli.go: the transports and the probes that the options ask for. The packages outside
-- the repository (doh, auth, verifier), files, YAML and the network are arguments.
pub mod Complete
use mailsec_probe.DnsClient.Udp.Build.{Environment, new_client}
use mailsec_probe.Cli.Suite.{
  AnyProbe, spf_probe, dmarc_probe, dkim_probe, skipped_dkim_probe, mx_probe, sts_probe,
  tlsrpt_probe, bimi_probe, dnssec_probe, active_probe,
}
use mailsec_probe.Common.{
  if◌then◌else◌, ℕ, ◌*◌, ◌⊎◌, inl, inr, Bool, true, false, not, ◌||◌, none, some, List, [], ◌∷◌,
  ◌++◌,
}
use mailsec_probe.Dedupe.{dedupe_by}
use mailsec_probe.Dkim.Build.{Rules, wrap_error, and_then, load_selectors}
use mailsec_probe.DnsClient.{Client}
use mailsec_probe.DnsClient.Doh.{is_doh_url, Resolver, new_doh}
use mailsec_probe.DnsSec.{Verifier, ad_only, validate}
use mailsec_probe.MtaTls.Dial.{Network, new_dialer}
use mailsec_probe.Text.{Bytes, codes, str_eq, is_empty, trim_space}
use mailsec_probe.HttpFetcher.Client.{Web, new_fetcher}

-- `rootOpts`, less the verbosity of the log.
pub record RootOpts : Type 0 where
  pub output_fmt : Bytes
  pub color : Bytes
  pub dns_server : Bytes
  pub dkim_selectors : List Bytes
  pub dkim_sel_file : Bytes
  pub no_spf_inference : Bool
  pub no_dkim : Bool
  pub no_rua_check : Bool
  pub active : Bool
  pub smtp_port : ℕ
  pub smtp_timeout : ℕ
  pub ehlo_name : Bytes
  pub input_file : Bytes
  pub stats : Bool
  pub timeout : ℕ
  pub concurrency : ℕ
  pub dkim_concurrency : ℕ
  pub include_raw : Bool
  pub dnssec_mode : Bytes
  pub dnssec_doh_providers : List Bytes
  pub no_dnssec_cache : Bool

-- The defaults of `newRoot`; times in milliseconds.
abbrev pub default_opts : RootOpts
default_opts = record {
  output_fmt = codes "human";
  color = codes "auto";
  dns_server = [];
  dkim_selectors = [];
  dkim_sel_file = [];
  no_spf_inference = false;
  no_dkim = false;
  no_rua_check = false;
  active = false;
  smtp_port = 25;
  smtp_timeout = 10 * 1000;
  ehlo_name = codes "mailsec-probe.local";
  input_file = [];
  stats = false;
  timeout = 10 * 1000;
  concurrency = 8;
  dkim_concurrency = 0;
  include_raw = false;
  dnssec_mode = codes "validate";
  dnssec_doh_providers = [];
  no_dnssec_cache = false;
}

-- The resolver of the verifier: a DoH client at some providers, or at its own without any, and the
-- client of authoritative servers.
pub data VerifierResolver : Type 0 where
  doh_resolver : List Bytes → VerifierResolver
  auth_resolver : Bytes → ℕ → VerifierResolver

-- What the program is built on. `doh` is the method `Resolve` of a DoH client at some providers.
pub record World : Type 0 where
  pub dns : Environment
  pub doh : List Bytes → Resolver
  pub new_verifier : VerifierResolver → Bool → Verifier ⊎ Bytes
  pub web : Web
  pub network : Network
  pub rules : Rules
  pub read_file : Bytes → Bytes ⊎ Bytes

-- `buildTransports`, where the server is not a URL and not empty.
abbrev with_auth : RootOpts → Client ⊎ Bytes → (Client × VerifierResolver) ⊎ Bytes
with_auth opts (inr e) = inr (codes "init DNS client: " ++ e)
with_auth opts (inl c) = inl (c, auth_resolver opts.dns_server opts.timeout)

abbrev doh_transports : World → List Bytes → (Client × VerifierResolver) ⊎ Bytes
doh_transports w providers = inl (new_doh (w.doh providers), doh_resolver providers)

unfoldable pub build_transports : World → RootOpts → (Client × VerifierResolver) ⊎ Bytes
unfolding is_doh_url new_doh new_client
build_transports w opts =
    if is_doh_url opts.dns_server
    then doh_transports w (opts.dns_server ∷ [])
    else if is_empty opts.dns_server
    then doh_transports w opts.dnssec_doh_providers
    else with_auth opts
        (new_client w.dns (record { server = opts.dns_server; timeout = opts.timeout }))

-- `buildVerifier` and `buildDNSSECProbe`.
abbrev build_verifier : World → VerifierResolver → RootOpts → Verifier ⊎ Bytes
build_verifier w resolver opts = w.new_verifier resolver (not opts.no_dnssec_cache)

abbrev validating : Client → Verifier ⊎ Bytes → mailsec_probe.DnsSec.Probe ⊎ Bytes
validating d (inr e) = inr (codes "build DNSSEC verifier: " ++ e)
validating d (inl v) = inl (record { dns = d; mode = validate; v = some v })

unfoldable pub build_dnssec_probe :
    World → Client → VerifierResolver → RootOpts → mailsec_probe.DnsSec.Probe ⊎ Bytes
unfolding str_eq
build_dnssec_probe w d resolver opts =
    if str_eq opts.dnssec_mode (codes "ad-only") || is_empty opts.dnssec_mode
    then inl (record { dns = d; mode = ad_only; v = none })
    else if str_eq opts.dnssec_mode (codes "validate")
    then validating d (build_verifier w resolver opts)
    else inr (
        codes "--dnssec-mode: unknown value \""
        ++ (opts.dnssec_mode ++ codes "\" (want ad-only|validate)"))

-- The DKIM part of `buildProbes`.
abbrev selectors_file : World → Bytes → Bytes ⊎ Bytes
selectors_file w [] = inl []
selectors_file w (c ∷ path) =
    wrap_error (codes "read DKIM selectors file: ") (w.read_file (c ∷ path))

abbrev user_controlled :
    RootOpts → List Bytes → mailsec_probe.Dkim.Scan.Probe → mailsec_probe.Dkim.Scan.Probe
user_controlled opts merged dp = record dp {
  selectors = dedupe_by trim_space merged;
  enable_inference = if opts.no_spf_inference then false else dp.enable_inference;
}

abbrev merged_selectors : RootOpts → List Bytes → List Bytes
merged_selectors opts base = base ++ opts.dkim_selectors

abbrev scanning : World → Client → RootOpts → AnyProbe ⊎ Bytes
scanning w d opts = and_then (selectors_file w opts.dkim_sel_file) (λ document.
    and_then (load_selectors w.rules document) (λ base.
      and_then
        (mailsec_probe.Dkim.Build.new_probe w.rules d (merged_selectors opts base) opts.include_raw)
        (λ dp. inl (dkim_probe (user_controlled opts (merged_selectors opts base) dp)))))

unfoldable pub build_dkim_probe : World → Client → RootOpts → AnyProbe ⊎ Bytes
unfolding mailsec_probe.Dkim.Build.new_probe dedupe_by trim_space
build_dkim_probe w d opts = if opts.no_dkim then inl skipped_dkim_probe else scanning w d opts

abbrev build_active : World → Client → RootOpts → AnyProbe
build_active w d opts = active_probe (record (mailsec_probe.MtaTls.Run.new_probe w.network d) {
  port = opts.smtp_port;
  our_name = opts.ehlo_name;
  dialer = new_dialer w.network opts.smtp_timeout;
})

-- `New` of the other probes. Time limits of the fetchers are in milliseconds.
abbrev build_dmarc : World → Client → RootOpts → AnyProbe
build_dmarc w d opts = dmarc_probe (record {
  dns = d;
  http = some (new_fetcher w.web (5 * 1000) []);
  enable_rua_check = if opts.no_rua_check then false else true;
  include_raw = opts.include_raw;
})

abbrev build_sts : World → Client → RootOpts → AnyProbe
build_sts w d opts =
    sts_probe
      (record { dns = d; http = new_fetcher w.web (8 * 1000) []; include_raw = opts.include_raw })

abbrev all_probes :
    World → Client → RootOpts → AnyProbe → mailsec_probe.DnsSec.Probe → List AnyProbe
all_probes w d opts dkim dnssec =
    (spf_probe (record { dns = d; include_raw = opts.include_raw })
      ∷ build_dmarc w d opts
      ∷ dkim
      ∷ mx_probe (record { dns = d })
      ∷ build_sts w d opts
      ∷ tlsrpt_probe (record { dns = d; include_raw = opts.include_raw })
      ∷ bimi_probe (record { dns = d; selector = codes "default"; include_raw = opts.include_raw })
      ∷ dnssec_probe dnssec
      ∷ [])
    ++ (if opts.active then build_active w d opts ∷ [] else [])

unfoldable pub build_probes : World → Client → VerifierResolver → RootOpts → List AnyProbe ⊎ Bytes
unfolding new_fetcher build_dkim_probe build_dnssec_probe mailsec_probe.MtaTls.Run.new_probe
    new_dialer
build_probes w d resolver opts = and_then (build_dkim_probe w d opts) (λ dkim.
    and_then (build_dnssec_probe w d resolver opts)
      (λ dnssec. inl (all_probes w d opts dkim dnssec)))

-- The transports and then the probes, as `run` builds them.
unfoldable pub build : World → RootOpts → List AnyProbe ⊎ Bytes
unfolding build_transports build_probes
build w opts =
    and_then (wrap_error (codes "init DNS transports: ") (build_transports w opts))
      (λ transports. build_probes w transports.0 transports.1 opts)
