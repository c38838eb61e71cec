-- ===== src/Classifier.antt =====
-- internal/classifier/classifier.go: the probes of one domain, and the order of their features.
-- A probe is its method `Run`; a probe that panics ends the program, and is not seen here. The
-- schedule is the order in which the probes finish.
pub mod Features
use mailsec_probe.Common.{ltb, if◌then◌else◌, ℕ, Bool, List, [], ◌∷◌, ◌++◌}
use mailsec_probe.FanOut.{fan_out}
use mailsec_probe.Signals.{Feature, Report}
use mailsec_probe.Sort.{sort_stable}
use mailsec_probe.Text.{Bytes, codes, str_eq, is_empty}

abbrev pub Probe : Type 0 → Type 0
Probe D = Bytes → List (Feature D)

-- `featureOrder`.
unfoldable pub feature_order : Bytes → ℕ
unfolding str_eq
feature_order name =
    if str_eq name (codes "spf")
    then 1
    else if str_eq name (codes "dmarc")
    then 2
    else if str_eq name (codes "dkim")
    then 3
    else if str_eq name (codes "mx")
    then 4
    else if str_eq name (codes "starttls")
    then 5
    else if str_eq name (codes "dane")
    then 6
    else if str_eq name (codes "mta-sts")
    then 7
    else if str_eq name (codes "tls-rpt")
    then 8
    else if str_eq name (codes "bimi")
    then 9
    else if str_eq name (codes "dnssec")
    then 10
    else 99

abbrev pub before_feature : {D : Type 0} → Feature D → Feature D → Bool
before_feature a b = ltb (feature_order a.name) (feature_order b.name)

-- The features of all probes, one behind the other.
unfoldable pub flat : {D : Type 0} → List (List (Feature D)) → List (Feature D)
flat [] = []
flat (fs ∷ per_probe) = fs ++ flat per_probe

unfoldable pub run : {D : Type 0} → List (Probe D) → Bytes → ℕ → List ℕ → Report D
unfolding fan_out sort_stable flat
run probes domain now schedule =
    if is_empty domain
    then record {
      domain = domain;
      queried_at = now;
      features = [];
      errors = codes "empty domain" ∷ [];
    }
    else record {
      domain = domain;
      queried_at = now;
      features = sort_stable before_feature (flat (fan_out (λ p. p domain) [] probes schedule));
      errors = [];
    }
