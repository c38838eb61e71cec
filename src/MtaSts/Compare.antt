-- ===== src/MtaSts/Compare.antt =====
-- `compareMXAgainstPolicy` of internal/probe/mtasts/mtasts.go, against the wildcard relation.
use mailsec_probe.Common.{
  All, keep, Bool-cases, ◌≡◌, refl, sym, ap, ◌↔◌, inl, inr, Bool, true, false, not, List, [], ◌∷◌,
  ◌++◌, map, append_assoc, append-nil, arith,
}
use mailsec_probe.MtaSts.{
  MxMatch, match_pattern, match_any_pattern, normalise, compare_hosts, compare_mx_against_policy,
  fresh_match,
}
use mailsec_probe.MtaSts.Pattern.{Matches, match_pattern_iff}
use mailsec_probe.Text.{Bytes}

-- Some pattern of the policy matches the host, letter case and one final dot aside.
pub data Covered (patterns : List Bytes) (h : Bytes) : Type 0 where
  by_pattern :
      (before : List Bytes) (pattern : Bytes) (after : List Bytes)
      → patterns ≡ before ++ pattern ∷ after
      → Matches (normalise h) (normalise pattern)
      → Covered patterns h

Covered-cons : (p : Bytes) {ps : List Bytes} {h : Bytes} → Covered ps h → Covered (p ∷ ps) h
Covered-cons p (by_pattern before pattern after e m) =
    by_pattern (p ∷ before) pattern after (ap (◌∷◌ p) e) m

abbrev pub is_covered : List Bytes → Bytes → Bool
is_covered patterns h = match_any_pattern (normalise h) (map normalise patterns)

is_covered_sound :
    (patterns : List Bytes) (h : Bytes) → is_covered patterns h ≡ true → Covered patterns h
unfolding match_any_pattern
is_covered_sound [] h e = cc
is_covered_sound (p ∷ patterns) h e =
    elim (Bool-cases (match_pattern (normalise h) (normalise p))) [
      | inl hit ↦
          by_pattern [] p patterns refl ((match_pattern_iff (normalise h) (normalise p)).0 hit)
      | inr miss ↦ Covered-cons p (is_covered_sound patterns h (rw miss at e))
    ]

is_covered_append :
    (before : List Bytes) (pattern : Bytes) (after : List Bytes) (h : Bytes)
    → match_pattern (normalise h) (normalise pattern) ≡ true
    → is_covered (before ++ pattern ∷ after) h ≡ true
unfolding match_any_pattern
is_covered_append [] pattern after h e = rw e
is_covered_append (p ∷ before) pattern after h e =
    ground (arith, is_covered_append before pattern after h e)

is_covered_complete :
    (patterns : List Bytes) (h : Bytes) → Covered patterns h → is_covered patterns h ≡ true
is_covered_complete patterns h (by_pattern before pattern after e m) = rw e (
    is_covered_append before pattern after h
      ((match_pattern_iff (normalise h) (normalise pattern)).1 m))

pub is_covered_iff :
    (patterns : List Bytes) (h : Bytes) → (is_covered patterns h ≡ true) ↔ Covered patterns h
is_covered_iff patterns h = (is_covered_sound patterns h, is_covered_complete patterns h)

-- The loop over the hosts, from any state of its two variables.
compare_hosts-keep :
    (patterns : List Bytes) (m : MxMatch) (hosts : List Bytes)
    → (compare_hosts (map normalise patterns) m hosts).unmatched
      ≡ m.unmatched ++ keep (λ h. not (is_covered patterns h)) hosts
unfolding compare_hosts
compare_hosts-keep patterns m [] = sym (append-nil m.unmatched)
compare_hosts-keep patterns m (h ∷ hosts) = elim (Bool-cases (is_covered patterns h)) [
  | inl hit ↦ ground (arith, compare_hosts-keep patterns m hosts)
  | inr miss ↦
      let m' = record m { unmatched = m.unmatched ++ h ∷ []; all_matched = false } in
      ground (
        arith,
        compare_hosts-keep patterns m' hosts,
        append_assoc m.unmatched (h ∷ []) (keep (λ x. not (is_covered patterns x)) hosts),
      )
]

compare_hosts-All :
    (patterns : List Bytes) (m : MxMatch) (hosts : List Bytes)
    → ((compare_hosts (map normalise patterns) m hosts).all_matched ≡ true)
      ↔ ((m.all_matched ≡ true) × All (λ h. is_covered patterns h ≡ true) hosts)
unfolding compare_hosts
compare_hosts-All patterns m [] = ground arith
compare_hosts-All patterns m (h ∷ hosts) = elim (Bool-cases (is_covered patterns h)) [
  | inl hit ↦ rw hit (ground (arith, compare_hosts-All patterns m hosts))
  | inr miss ↦ rw miss (
      ground (
        arith,
        compare_hosts-All patterns
            (record m { unmatched = m.unmatched ++ h ∷ []; all_matched = false }) hosts,
      ))
]

All-Covered :
    (patterns hosts : List Bytes)
    → All (λ h. is_covered patterns h ≡ true) hosts ↔ All (Covered patterns) hosts
All-Covered patterns [] = (λ _. tt, λ _. tt)
All-Covered patterns (h ∷ hosts) =
    let rest = All-Covered patterns hosts in
    let here = is_covered_iff patterns h in
    (λ a. (here.0 a.0, rest.0 a.1), λ a. (here.1 a.0, rest.1 a.1))

-- The comparison reports that all hosts match exactly when each is covered by some pattern of the
-- policy; the hosts that it lists as unmatched are those that no pattern covers, in their order.
pub compare_mx_against_policy_lem :
    (hosts patterns : List Bytes)
    → (((compare_mx_against_policy hosts patterns).all_matched ≡ true)
        ↔ All (Covered patterns) hosts)
      × ((compare_mx_against_policy hosts patterns).unmatched
          ≡ keep (λ h. not (is_covered patterns h)) hosts)
unfolding compare_mx_against_policy
compare_mx_against_policy_lem [] patterns = ((λ _. tt, λ _. refl), refl)
compare_mx_against_policy_lem (h ∷ hosts) patterns =
    let all = compare_hosts-All patterns (fresh_match (h ∷ hosts) patterns) (h ∷ hosts) in
    let spec = All-Covered patterns (h ∷ hosts) in
    (
      (λ e. spec.0 (all.0 e).1, λ c. all.1 (refl, spec.1 c)),
      compare_hosts-keep patterns (fresh_match (h ∷ hosts) patterns) (h ∷ hosts),
    )
