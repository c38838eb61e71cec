-- ===== src/Classifier/Features.antt =====
-- `Run` of internal/classifier/classifier.go: the features of a report and their order.
use mathlib.Core.List.{Perm}
use mailsec_probe.Classifier.{Probe, feature_order, before_feature, flat, run}
use mailsec_probe.Common.{keep, ◌==◌, ℕ, ◌≡◌, refl, ◌≢◌, Bool, List, [], ◌∷◌, map, arith}
use mailsec_probe.FanOut.{IsComplete, fan_out}
use mailsec_probe.FanOut.Order.{fan_out-map}
use mailsec_probe.Signals.{Feature, Report}
use mailsec_probe.Sort.Laws.{
  IsSorted, sort_stable-perm, sort_stable-IsSorted, keep-sort_stable, rank-IsOrder,
}
use mailsec_probe.Text.{Bytes}

-- What the probes observe, in the order of the probes.
abbrev pub observed : {D : Type 0} → List (Probe D) → Bytes → List (Feature D)
observed probes domain = flat (map (λ p. p domain) probes)

abbrev pub at_order : {D : Type 0} → ℕ → Feature D → Bool
at_order n f = feature_order f.name == n

pub record IsFull (D : Type 0) (probes : List (Probe D)) (domain : Bytes) (rep : Report D)
    : Type 0 where
  pub clean : rep.errors ≡ []
  pub sorted : IsSorted before_feature rep.features
  pub all : Perm rep.features (observed probes domain)
  pub stable : (n : ℕ) → keep (at_order n) rep.features ≡ keep (at_order n) (observed probes domain)

-- For a domain that is not empty, and whatever order the probes finish in, the report has no errors
-- and holds the features of all probes and no others, in the canonical order; features of one rank
-- stand in the order of the probes.
pub run-IsFull :
    {D : Type 0} (probes : List (Probe D)) (domain : Bytes) (now : ℕ) (schedule : List ℕ)
    → IsComplete probes schedule
    → domain ≢ []
    → IsFull D probes domain (run probes domain now schedule)
unfolding run
run-IsFull probes [] now schedule complete solid = absurd (solid refl)
run-IsFull {D} probes (c ∷ domain) now schedule complete solid =
    let fs = observed probes (c ∷ domain) in
    let same = fan_out-map (λ (p : Probe D). p (c ∷ domain)) [] probes schedule complete in
    record {
      clean = refl;
      sorted =
          sort_stable-IsSorted before_feature
            (rank-IsOrder (λ (f : Feature D). feature_order f.name))
            (flat (fan_out (λ (p : Probe D). p (c ∷ domain)) [] probes schedule));
      all = rw same (sort_stable-perm before_feature fs);
      stable = λ n.
          rw same
            (keep-sort_stable before_feature (at_order n) (λ x y p q. ground (arith, p, q)) fs);
    }
