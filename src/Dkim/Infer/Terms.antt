-- ===== src/Dkim/Infer/Terms.antt =====
-- The loops of `inferSelectorsFromSPF` of internal/probe/dkim/inference.go over the terms of an SPF
-- record and over the rules.
use mailsec_probe.Common.{
  Some, Bool-cases, ◌≡◌, refl, ap, ◌∙◌, ◌↔◌, ◌⊎◌, inl, inr, true, ◌||◌, List, [], ◌∷◌, ◌++◌, arith,
}
use mailsec_probe.Dedupe.Members.{Some-append}
use mailsec_probe.Dkim.Infer.{InferenceRule, target_of, targets_of, any_contains, suggested}
use mailsec_probe.Text.{Bytes, codes, trim_space, to_lower, has_prefix, contains, fields}
use mailsec_probe.Text.Match.{has_prefix_sound, has_prefix_complete}

-- A text stands inside another.
abbrev pub Contains : Bytes → Bytes → Type 0
Contains s part = (a : Bytes) × (b : Bytes) × (s ≡ a ++ (part ++ b))

prefix-contains : (s part : Bytes) → has_prefix s part ≡ true → contains s part ≡ true
unfolding contains
prefix-contains [] part h = h
prefix-contains (c ∷ s) part h = rw h

contains_sound : (s part : Bytes) → contains s part ≡ true → Contains s part
unfolding contains
contains_sound [] part h = let (b, e) = has_prefix_sound [] part h in ([], b, e)
contains_sound (c ∷ s) part h = elim (Bool-cases (has_prefix (c ∷ s) part)) [
  | inl here ↦ let (b, e) = has_prefix_sound (c ∷ s) part here in ([], b, e)
  | inr later ↦ let (a, b, e) = contains_sound s part (rw later at h) in (c ∷ a, b, ap (◌∷◌ c) e)
]

contains_complete : (a part b : Bytes) → contains (a ++ (part ++ b)) part ≡ true
unfolding contains
contains_complete [] part b = prefix-contains (part ++ b) part (has_prefix_complete part b)
contains_complete (c ∷ a) part b = ground (arith, contains_complete a part b)

contains_iff : (s part : Bytes) → (contains s part ≡ true) ↔ Contains s part
contains_iff s part = (contains_sound s part, λ (a, b, e). rw e (contains_complete a part b))

-- A term of the record names another domain to include or to redirect to.
abbrev pub Names : Bytes → Bytes → Type 0
Names tok target =
    (to_lower tok ≡ codes "include:" ++ target) ⊎ (to_lower tok ≡ codes "redirect=" ++ target)

-- Some term of the record names a domain that the rule looks for.
abbrev pub Matches : Bytes → InferenceRule → Type 0
Matches spf rule =
    Some
      (λ tok. (target : Bytes) × Names tok target × Contains target (to_lower rule.match_include))
      (fields spf)

target_of-include : (rest : Bytes) → target_of (codes "include:" ++ rest) ≡ rest ∷ []
target_of-include rest = rw (has_prefix_complete (codes "include:") rest)

target_of-redirect : (rest : Bytes) → target_of (codes "redirect=" ++ rest) ≡ rest ∷ []
unfolding has_prefix
target_of-redirect rest = refl

single_iff :
    (target needle : Bytes)
    → (any_contains (target ∷ []) needle ≡ true) ↔ (contains target needle ≡ true)
single_iff target needle = ground arith

target_of_iff :
    (tok needle : Bytes)
    → (any_contains (target_of (to_lower tok)) needle ≡ true)
      ↔ ((target : Bytes) × Names tok target × Contains target needle)
target_of_iff tok needle = (sound, complete)
  where
    found :
        (target : Bytes)
        → Names tok target
        → target_of (to_lower tok) ≡ target ∷ []
        → any_contains (target_of (to_lower tok)) needle ≡ true
        → (t : Bytes) × Names tok t × Contains t needle
    found target names e h =
        (target, names, contains_sound target needle ((single_iff target needle).0 (rw e at h)))

    sound :
        any_contains (target_of (to_lower tok)) needle ≡ true
        → (target : Bytes) × Names tok target × Contains target needle
    sound h = elim (Bool-cases (has_prefix (to_lower tok) (codes "include:"))) [
      | inl inc ↦
          let (rest, e) = has_prefix_sound (to_lower tok) (codes "include:") inc in
          found rest (inl e) (ap target_of e ∙ target_of-include rest) h
      | inr other ↦ elim (Bool-cases (has_prefix (to_lower tok) (codes "redirect="))) [
        | inl red ↦
            let (rest, e) = has_prefix_sound (to_lower tok) (codes "redirect=") red in
            found rest (inr e) (ap target_of e ∙ target_of-redirect rest) h
        | inr neither ↦ absurd (cc (rw (other, neither) at h))
      ]
    ]

    complete :
        (target : Bytes) × Names tok target × Contains target needle
        → any_contains (target_of (to_lower tok)) needle ≡ true
    complete (target, inl e, c) =
        rw (e, target_of-include target)
          ((single_iff target needle).1 ((contains_iff target needle).1 c))
    complete (target, inr e, c) =
        rw (e, target_of-redirect target)
          ((single_iff target needle).1 ((contains_iff target needle).1 c))

any_contains-append :
    (xs ys : List Bytes) (needle : Bytes)
    → any_contains (xs ++ ys) needle ≡ (any_contains xs needle || any_contains ys needle)
any_contains-append [] ys needle = refl
any_contains-append (x ∷ xs) ys needle = ground (arith, any_contains-append xs ys needle)

pub targets_of_iff :
    (toks : List Bytes) (needle : Bytes)
    → (any_contains (targets_of toks) needle ≡ true)
      ↔ Some (λ tok. (target : Bytes) × Names tok target × Contains target needle) toks
unfolding targets_of
targets_of_iff [] needle = ((λ h. absurd cc), λ s. absurd s)
targets_of_iff (tok ∷ toks) needle =
    let here = target_of_iff tok needle in
    let rest = targets_of_iff toks needle in
    rw (any_contains-append (target_of (to_lower tok)) (targets_of toks) needle)
      (ground (arith, here, rest))

-- The rules that apply, and what they add.
abbrev pub Adds : List Bytes → Bytes → InferenceRule → Type 0
Adds targets sel rule =
    (any_contains targets (to_lower rule.match_include) ≡ true)
    × Some (λ raw. trim_space raw ≡ sel) rule.add_selectors

pub suggested_iff :
    (targets : List Bytes) (rules : List InferenceRule) (sel : Bytes)
    → Some (λ raw. trim_space raw ≡ sel) (suggested targets rules) ↔ Some (Adds targets sel) rules
unfolding suggested
suggested_iff targets [] sel = ((λ s. absurd s), λ s. absurd s)
suggested_iff targets (rule ∷ rules) sel =
    let rest = suggested_iff targets rules sel in
    let both =
      Some-append (λ raw. trim_space raw ≡ sel) rule.add_selectors (suggested targets rules) in
    elim (Bool-cases (any_contains targets (to_lower rule.match_include))) [
      | inl hit ↦ rw hit (ground (arith, rest, both))
      | inr miss ↦ rw miss (ground (arith, rest))
    ]
