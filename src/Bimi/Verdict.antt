-- ===== src/Bimi/Verdict.antt =====
-- `runOne` of internal/probe/bimi/bimi.go, for every answer of the DNS.
use mailsec_probe.Bimi.{Probe, run_one, on_pick}
use mailsec_probe.Signals.{present, absent, Signal}
use mailsec_probe.Common.{
  All, if◌then◌else◌, ◌≡◌, refl, ◌↔◌, Bool, Option, none, some, List, ◌++◌, arith,
}
use mailsec_probe.DnsClient.{TxtResult}
use mailsec_probe.Text.{Bytes, codes, is_empty}
use mailsec_probe.TxtTag.{Pair, pick_by_version}
use mailsec_probe.TxtTag.Select.{Declares, IsPick, pick_by_version_iff, pick_by_version-none}

-- The name that is looked up: an empty selector stands for "default".
abbrev pub bimi_name : Bytes → Bytes → Bytes
bimi_name selector domain =
    (if is_empty selector then codes "default" else selector) ++ (codes "._bimi." ++ domain)

on_pick-present :
    (include_raw : Bool) (target : Bytes) (found : Option (Bytes × List Pair)) (sig : Signal)
    → ((on_pick include_raw target found sig).status ≡ present)
      ↔ ((raw : Bytes) × (ps : List Pair) × (found ≡ some (raw, ps)))
on_pick-present include_raw target none sig = ((λ h. cc), λ (_, _, e). cc)
on_pick-present include_raw target (some (raw, pairs)) sig = ((λ _. (raw, pairs, refl)), λ _. refl)

on_pick-absent :
    (include_raw : Bool) (target : Bytes) (found : Option (Bytes × List Pair)) (sig : Signal)
    → ((on_pick include_raw target found sig).status ≡ absent) ↔ (found ≡ none)
on_pick-absent include_raw target none sig = ground arith
on_pick-absent include_raw target (some (raw, pairs)) sig = ground arith

-- BIMI on an answer of the DNS at the selector's name, which is "default" if none is set. Present: some
-- record declares BIMI1, whatever logo it names. Absent: no record declares it.
pub run_one-bimi_verdict :
    (p : Probe) (domain : Bytes) (res : TxtResult)
    → p.dns.lookup_txt (bimi_name p.selector domain) ≡ (res, none)
    → (((run_one p domain).status ≡ present)
        ↔ ((raw : Bytes) × (ps : List Pair) × IsPick res.records (codes "BIMI1") raw ps))
      × (((run_one p domain).status ≡ absent) ↔ All (λ r. ¬ Declares (codes "BIMI1") r) res.records)
unfolding run_one
run_one-bimi_verdict p domain res answer =
    let found = pick_by_version res.records (codes "BIMI1") in
    let first = pick_by_version_iff res.records (codes "BIMI1") in
    let declared = pick_by_version-none res.records (codes "BIMI1") in
    let there = on_pick-present p.include_raw _ found _ in
    let gone = on_pick-absent p.include_raw _ found _ in
    rw answer (
      (
        (λ h. let (raw, ps, e) = there.0 h in (raw, ps, (first raw ps).0 e)),
        λ (raw, ps, k). there.1 (raw, ps, (first raw ps).1 k),
      ),
      ((λ h. declared.0 (gone.0 h)), λ h. gone.1 (declared.1 h)),
    )
