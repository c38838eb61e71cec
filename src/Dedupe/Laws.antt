-- ===== src/Dedupe/Laws.antt =====
-- The loop that removes duplicates: what it keeps and in what order.
use mailsec_probe.Common.{
  keep, Bool-cases, ◌≡◌, refl, inl, inr, Bool, true, false, not, ◌&&◌, List, [], ◌∷◌, arith, sym,
  ap, ◌∙◌, map, ◌++◌,
}
use mailsec_probe.Dedupe.{mem, dedupe_from, dedupe_by}
use mailsec_probe.Text.{Bytes, str_eq, is_empty}
use mailsec_probe.Text.Match.{str_eq_iff, str_eq_refl}

-- No text stands twice.
abbrev pub Distinct : List Bytes → Type 0
Distinct [] = Unit
Distinct (x ∷ xs) = (mem x xs ≡ false) × Distinct xs

abbrev unseen : List Bytes → Bytes → Bool
unseen seen t = not (mem t seen)

keep-keep :
    (p q r : Bytes → Bool)
    → ((t : Bytes) → (p t && q t) ≡ r t)
    → (xs : List Bytes) → keep p (keep q xs) ≡ keep r xs
keep-keep p q r h [] = refl
keep-keep p q r h (x ∷ xs) = ground (arith, h x, keep-keep p q r h xs)

mem_ne :
    (t u : Bytes) (seen : List Bytes)
    → mem t seen ≡ true
    → (unseen seen u && unseen (t ∷ []) u) ≡ unseen seen u
unfolding mem
mem_ne t u seen h = elim (Bool-cases (str_eq t u)) [
  | inl same ↦
      let e = (str_eq_iff t u).0 same in let there : mem u seen ≡ true = rw e at h in rw there
  | inr other ↦ rw other (ground arith)
]

mem_split :
    (t u : Bytes) (seen : List Bytes) → (unseen seen u && unseen (t ∷ []) u) ≡ unseen (t ∷ seen) u
unfolding mem
mem_split t u seen = ground arith

module _ (norm : Bytes → Bytes) where
  -- A set of texts seen before only removes these from the result.
  dedupe_from-keep :
      (ss seen : List Bytes) → dedupe_from norm seen ss ≡ keep (unseen seen) (dedupe_by norm ss)
  unfolding dedupe_by dedupe_from
  dedupe_from-keep [] seen = refl
  dedupe_from-keep (s ∷ ss) seen =
      let t = norm s in
      let rest = dedupe_by norm ss in
      elim (Bool-cases (is_empty t)) [
        | inl blank ↦ rw blank (dedupe_from-keep ss seen)
        | inr solid ↦ elim (Bool-cases (mem t seen)) [
          | inl old ↦
              rw (solid, old)
                (dedupe_from-keep ss seen
                  ∙ sym (
                      ap (keep (unseen seen)) (dedupe_from-keep ss (t ∷ []))
                      ∙ keep-keep (unseen seen) (unseen (t ∷ [])) (unseen seen)
                          (λ u. mem_ne t u seen old) rest))
          | inr new ↦
              rw (solid, new)
                (ap (◌∷◌ t) (
                  dedupe_from-keep ss (t ∷ seen)
                  ∙ sym (
                      ap (keep (unseen seen)) (dedupe_from-keep ss (t ∷ []))
                      ∙ keep-keep (unseen seen) (unseen (t ∷ [])) (unseen (t ∷ seen))
                          (λ u. mem_split t u seen) rest)))
        ]
      ]

  mem-keep :
      (t : Bytes) (seen xs : List Bytes)
      → mem t (keep (unseen seen) xs) ≡ (mem t xs && unseen seen t)
  unfolding mem
  mem-keep t seen [] = refl
  mem-keep t seen (x ∷ xs) = ground (arith, mem-keep t seen xs, str_eq_iff x t)

  -- A text is in the result exactly when it is not empty and is the normal form of some input.
  pub mem-dedupe_by :
      (t : Bytes) (ss : List Bytes)
      → mem t (dedupe_by norm ss) ≡ (not (is_empty t) && mem t (map norm ss))
  unfolding dedupe_by dedupe_from mem
  mem-dedupe_by t [] = ground arith
  mem-dedupe_by t (s ∷ ss) = ground (
    arith,
    str_eq_iff (norm s) t,
    mem-dedupe_by t ss,
    dedupe_from-keep ss (norm s ∷ []),
    mem-keep t (norm s ∷ []) (dedupe_by norm ss),
  )

  mem-keep-false :
      (t : Bytes) (p : Bytes → Bool) (xs : List Bytes)
      → mem t xs ≡ false
      → mem t (keep p xs) ≡ false
  unfolding mem
  mem-keep-false t p [] h = refl
  mem-keep-false t p (x ∷ xs) h = ground (arith, mem-keep-false t p xs)

  Distinct-keep : (p : Bytes → Bool) (xs : List Bytes) → Distinct xs → Distinct (keep p xs)
  Distinct-keep p [] h = tt
  Distinct-keep p (x ∷ xs) h = elim (Bool-cases (p x)) [
    | inl kept ↦ rw kept (mem-keep-false x p xs h.0, Distinct-keep p xs h.1)
    | inr dropped ↦ rw dropped (Distinct-keep p xs h.1)
  ]

  mem_self : (t : Bytes) → mem t (t ∷ []) ≡ true
  unfolding mem
  mem_self t = rw (str_eq_refl t)

  -- Nothing stands twice in the result.
  pub dedupe_by-Distinct : (ss : List Bytes) → Distinct (dedupe_by norm ss)
  unfolding dedupe_by dedupe_from
  dedupe_by-Distinct [] = tt
  dedupe_by-Distinct (s ∷ ss) =
      let t = norm s in
      let rest = dedupe_by norm ss in
      elim (Bool-cases (is_empty t)) [
        | inl blank ↦ rw blank (dedupe_by-Distinct ss)
        | inr solid ↦
            rw (solid, dedupe_from-keep ss (t ∷ []))
              (
                (mem-keep t (t ∷ []) rest ∙ rw (mem_self t) (ground arith)),
                Distinct-keep (unseen (t ∷ [])) rest (dedupe_by-Distinct ss),
              )
      ]

  keep_all : (xs : List Bytes) → keep (unseen []) xs ≡ xs
  unfolding mem
  keep_all [] = refl
  keep_all (x ∷ xs) = ap (◌∷◌ x) (keep_all xs)

  keep-append : (p : Bytes → Bool) (xs ys : List Bytes) → keep p (xs ++ ys) ≡ keep p xs ++ keep p ys
  keep-append p [] ys = refl
  keep-append p (x ∷ xs) ys = ground (arith, keep-append p xs ys)

  unseen_first :
      (t u : Bytes) (xs : List Bytes)
      → (unseen (t ∷ []) u && unseen xs u) ≡ unseen (t ∷ keep (unseen (t ∷ [])) xs) u
  unfolding mem
  unseen_first t u xs = ground (arith, mem-keep u (t ∷ []) xs)

  -- The order is that of the first places: what the second part of the input adds stands behind the
  -- result for the first part, less what is there already.
  pub dedupe_by-append :
      (xs ys : List Bytes)
      → dedupe_by norm (xs ++ ys)
        ≡ dedupe_by norm xs ++ keep (unseen (dedupe_by norm xs)) (dedupe_by norm ys)
  unfolding dedupe_by dedupe_from
  dedupe_by-append [] ys = sym (keep_all (dedupe_by norm ys))
  dedupe_by-append (s ∷ xs) ys =
      let t = norm s in
      let first = dedupe_by norm xs in
      let second = dedupe_by norm ys in
      elim (Bool-cases (is_empty t)) [
        | inl blank ↦ rw blank (dedupe_by-append xs ys)
        | inr solid ↦
            rw (solid, dedupe_from-keep xs (t ∷ []), dedupe_from-keep (xs ++ ys) (t ∷ []))
              (ap (◌∷◌ t) (
                ap (keep (unseen (t ∷ []))) (dedupe_by-append xs ys)
                ∙ keep-append (unseen (t ∷ [])) first (keep (unseen first) second)
                ∙ ap (λ zs. keep (unseen (t ∷ [])) first ++ zs)
                    (keep-keep (unseen (t ∷ [])) (unseen first)
                      (unseen (t ∷ keep (unseen (t ∷ [])) first)) (λ u. unseen_first t u first)
                      second)))
      ]
