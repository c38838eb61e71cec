-- ===== src/Dkim/Build.antt =====
-- `New`, `LoadSelectors` of internal/probe/dkim/dkim.go and `LoadInferenceRules` of
-- internal/probe/dkim/inference.go. YAML and the embedded documents of rules/embed.go are arguments.
use mailsec_probe.Dkim.Scan.{Probe}
use mailsec_probe.Dedupe.{dedupe_by}
use mailsec_probe.Dkim.Infer.{InferenceRule}
use mailsec_probe.DnsClient.{Client}
use mailsec_probe.Text.{Bytes, codes, trim_space}
use mailsec_probe.Common.{◌⊎◌, inl, inr, Bool, true, List, [], ◌∷◌, ◌++◌}

pub record Rules : Type 0 where
  pub selectors_yaml : Bytes
  pub inference_yaml : Bytes
  pub parse_selectors : Bytes → List Bytes ⊎ Bytes
  pub parse_inference : Bytes → List InferenceRule ⊎ Bytes

-- Nothing is read as the embedded document.
abbrev pub or_embedded : Bytes → Bytes → Bytes
or_embedded [] embedded = embedded
or_embedded (c ∷ document) embedded = c ∷ document

-- An error with what was being done before it.
abbrev pub wrap_error {ℓ} : {A : Type ℓ} → Bytes → A ⊎ Bytes → A ⊎ Bytes
wrap_error doing (inl a) = inl a
wrap_error doing (inr e) = inr (doing ++ e)

-- The next step, unless there is an error.
abbrev pub and_then {ℓ κ} : {A : Type ℓ} {B : Type κ} → A ⊎ Bytes → (A → B ⊎ Bytes) → B ⊎ Bytes
and_then (inl a) next = next a
and_then (inr e) next = inr e

abbrev pub load_selectors : Rules → Bytes → List Bytes ⊎ Bytes
load_selectors rules document =
    wrap_error (codes "parse dkim selectors yaml: ")
      (rules.parse_selectors (or_embedded document rules.selectors_yaml))

abbrev pub load_inference_rules : Rules → Bytes → List InferenceRule ⊎ Bytes
load_inference_rules rules document =
    wrap_error (codes "parse dkim inference yaml: ")
      (rules.parse_inference (or_embedded document rules.inference_yaml))

unfoldable pub new_probe : Rules → Client → List Bytes → Bool → Probe ⊎ Bytes
unfolding dedupe_by trim_space
new_probe rules d extras include_raw = and_then (load_selectors rules []) (λ base.
    and_then (load_inference_rules rules []) (λ irules. inl (record {
      dns = d;
      selectors = dedupe_by trim_space (base ++ extras);
      inference_rules = irules;
      enable_inference = true;
      include_raw = include_raw;
    })))
