-- ===== src/Dkim/Scan/Named.antt =====
-- `runOne` of internal/probe/dkim/dkim.go: the name of its feature.
use mailsec_probe.Dkim.Scan.{
  Details, Probe, run_one, Lookup, look_up, decide, found_keys, merged, inferred_by, details_of,
  judge,
}
use mailsec_probe.Outcome.{returned, >>=-eq-returned, returned_inj}
use mailsec_probe.Signals.{Signal, Feature}
use mailsec_probe.Text.{Bytes, codes}
use mailsec_probe.Common.{◌≡◌, sym, ap, ◌∙◌, List, map, arith}

decide-name :
    (results : List Lookup) (d : Details) (sigs : List Signal)
    → (decide results d sigs).name ≡ codes "dkim"
unfolding decide
decide-name results d sigs = ground arith

pub run_one-name :
    (p : Probe) (domain : Bytes) (f : Feature Details)
    → run_one p domain ≡ returned f
    → f.name ≡ codes "dkim"
unfolding run_one
run_one-name p domain f h =
    let inferred = inferred_by p domain in
    let results = map (look_up p.dns domain) (merged p.selectors inferred) in
    let (keys, _, e) =
      >>=-eq-returned (found_keys p.include_raw results)
        (λ ks. returned (judge results inferred ks)) h in
    let same : judge results inferred keys ≡ f = returned_inj e in
    ap (λ g. g.name) (sym same)
    ∙ decide-name results (details_of results inferred keys) (map (λ r. r.sig) results)
