-- ===== src/Tests/Whole.antt =====
-- The theorem on the features of a report, at the options of an active run.
use mailsec_probe.DnsClient.Udp.Build.{Environment}
use mailsec_probe.MtaTls.Dial.{refused}
use mailsec_probe.Cli.Build.{RootOpts, default_opts, World, build}
use mailsec_probe.Cli.Build.Complete.{as_probe, Returns, report_names, run-report_names}
use mailsec_probe.Cli.Suite.{AnyProbe, Surroundings, run_probe, AnyDetails}
use mailsec_probe.Cli.Suite.Names.{names_of}
use mailsec_probe.Common.{
  All, ℕ, ◌≡◌, refl, ◌⊎◌, inl, inr, true, none, some, List, [], ◌∷◌, ◌++◌, map, arith, false, sym,
  subst,
}
use mailsec_probe.FanOut.{IsComplete}
use mailsec_probe.Text.{Bytes, codes, str_eq, is_space, trim_left, trim_right, trim_space, to_lower}
use mathlib.Core.List.{cons-ne-nil}
use mailsec_probe.Tests.{example_domain}
use mailsec_probe.Cli.{read_domains_file, merge_domains}
use mailsec_probe.Cli.Command.{command, report_with, Ran}
use mailsec_probe.Cli.Command.Tsv.{
  reports_of, IsTsvRun, IsTsvResult, command-IsTsvResult, AnyPanics, AllReturn,
}
use mailsec_probe.Dedupe.{mem, dedupe_from, dedupe_by}
use mailsec_probe.Output.Rows.{IsCell}
use mailsec_probe.Signals.{Feature}
use mailsec_probe.Outcome.{returned, panicked}

abbrev no_servers : Environment
no_servers = record {
  splits = λ s. true;
  join_host_port = λ host port. host ++ (codes ":" ++ port);
  resolv_conf = none;
  resolver_at = λ url name qtype. (record { ad = true; rcode = 0; records = [] }, none);
  exchanges = record {
    fqdn = λ name. name;
    udp = λ timeout q server. (none, some (codes "timeout"));
    tcp = λ timeout q server. (none, some (codes "timeout"));
  };
}

abbrev small_world : World
small_world = record {
  dns = no_servers;
  doh = λ providers name qtype. (record { ad = true; rcode = 0; records = [] }, none);
  new_verifier = λ resolver cache. inl (λ name. (none, some (codes "no answer")));
  web = record {
    refuses = λ method url. none;
    send = λ timeout version r.
        inl (record { status_code = 404; read_all = λ n. (codes "not found", none) });
  };
  network = record {
    join_host_port = λ host port. host ++ (codes ":" ++ port);
    dial = λ timeout address. refused (codes "refused");
    elapsed = λ address. 12;
  };
  rules = record {
    selectors_yaml = codes "selectors";
    inference_yaml = codes "rules";
    parse_selectors = λ document. inl (codes "google" ∷ []);
    parse_inference = λ document. inl [];
  };
  read_file = λ path. inr (codes "no such file");
}

abbrev active_opts : RootOpts
active_opts = record default_opts { active = true }

abbrev surroundings : Surroundings
surroundings = record {
  crypto = record { verify = λ leaf rest name. none; sha256 = λ s. s; sha512 = λ s. s };
  first = λ n hosts. [];
  second = λ n hosts. [];
}

abbrev probes_or_nil : List AnyProbe ⊎ Bytes → List AnyProbe
probes_or_nil (inl probes) = probes
probes_or_nil (inr e) = []

abbrev small_probes : List AnyProbe
small_probes = probes_or_nil (build small_world active_opts)

small_probes-built : build small_world active_opts ≡ inl small_probes
unfolding build
small_probes-built = refl

small_probes-Returns : All (Returns surroundings example_domain) small_probes
unfolding build run_probe mailsec_probe.Dkim.Scan.run_one
small_probes-Returns = (
  (_, refl),
  (
    (_, refl),
    ((_, refl), ((_, refl), ((_, refl), ((_, refl), ((_, refl), ((_, refl), ((_, refl), tt))))))),
  ),
)

abbrev last_first : List ℕ
last_first = 8 ∷ 7 ∷ 6 ∷ 5 ∷ 4 ∷ 3 ∷ 2 ∷ 1 ∷ 0 ∷ []

small_probes-IsComplete : IsComplete (map (as_probe surroundings) small_probes) last_first
unfolding build
small_probes-IsComplete i h = ground (arith, h)

run-report_names_example :
    names_of
      (mailsec_probe.Classifier.run
        (map (as_probe surroundings) small_probes)
        example_domain
        7
        last_first).features
    ≡ report_names true
run-report_names_example =
    run-report_names small_world active_opts small_probes surroundings example_domain 7 last_first
      small_probes-built (cons-ne-nil _ _) small_probes-Returns small_probes-IsComplete

abbrev tsv_opts : RootOpts
tsv_opts = record active_opts { output_fmt = codes "tsv"; dns_server = codes "192.0.2.53:53" }

abbrev tsv_probes : List AnyProbe
tsv_probes = probes_or_nil (build small_world tsv_opts)

abbrev tsv_session : mailsec_probe.Cli.Command.Session
tsv_session = record {
  surroundings = surroundings;
  now = 7;
  probe_order = λ d. last_first;
  domain_order = 0 ∷ [];
  json = λ reports stats. [];
  no_color = true;
  terminal = false;
}

tsv_probes-Returns : All (Returns surroundings example_domain) tsv_probes
unfolding build run_probe mailsec_probe.Dkim.Scan.run_one
tsv_probes-Returns = (
  (_, refl),
  (
    (_, refl),
    ((_, refl), ((_, refl), ((_, refl), ((_, refl), ((_, refl), ((_, refl), ((_, refl), tt))))))),
  ),
)

tsv_probes-IsComplete : IsComplete (map (as_probe surroundings) tsv_probes) last_first
unfolding build
tsv_probes-IsComplete i h = ground (arith, h)

cells_of_names :
    (fs : List (Feature AnyDetails))
    → All IsCell (names_of fs)
    → All (λ (f : Feature AnyDetails). IsCell f.name) fs
cells_of_names [] h = tt
cells_of_names (f ∷ fs) (here, rest) = (here, cells_of_names fs rest)

report_names-AreCells : All IsCell (report_names true)
unfolding report_names
report_names-AreCells = ground arith

tsv_built : build small_world tsv_opts ≡ inl tsv_probes
unfolding build
tsv_built = refl

one_domain : merge_domains (example_domain ∷ []) [] ≡ example_domain ∷ []
unfolding merge_domains mem dedupe_from dedupe_by to_lower trim_space trim_left trim_right is_space
    str_eq
one_domain = refl

tsv_names :
    names_of (report_with tsv_session tsv_probes example_domain).features ≡ report_names true
tsv_names =
    run-report_names small_world tsv_opts tsv_probes surroundings example_domain 7 last_first
      tsv_built (cons-ne-nil _ _) tsv_probes-Returns tsv_probes-IsComplete

example_domain-IsCell : IsCell example_domain
example_domain-IsCell = (ground arith, ground arith)

tsv_domain : (report_with tsv_session tsv_probes example_domain).domain ≡ example_domain
unfolding mailsec_probe.Classifier.run
tsv_domain = refl

tsv_run : IsTsvRun small_world tsv_session tsv_opts (example_domain ∷ []) none tsv_probes []
tsv_run = record {
  built = tsv_built;
  reads = unfold read_domains_file in refl;
  format = refl;
  no_stats = refl;
  some_domain = rw one_domain (cons-ne-nil _ _);
  complete = rw one_domain (λ i h. ground (arith, h));
  plain = rw one_domain (
    record {
      domain_cell = subst IsCell (sym tsv_domain) example_domain-IsCell;
      name_cells =
          cells_of_names (report_with tsv_session tsv_probes example_domain).features
            (subst (All IsCell) (sym tsv_names) report_names-AreCells);
    },
    tt,
  );
}

command-IsTsvResult_example :
    (AnyPanics tsv_session tsv_probes (merge_domains (example_domain ∷ []) [])
      × (command small_world tsv_session tsv_opts (example_domain ∷ []) none ≡ panicked))
    ⊎ (AllReturn tsv_session tsv_probes (merge_domains (example_domain ∷ []) [])
        × ((ran : Ran) × (command small_world tsv_session tsv_opts (example_domain ∷ []) none
              ≡ returned ran)
            × IsTsvResult (reports_of tsv_session tsv_probes (example_domain ∷ []) []) ran))
command-IsTsvResult_example =
    command-IsTsvResult small_world tsv_session tsv_opts (example_domain ∷ []) none tsv_probes []
      tsv_run
