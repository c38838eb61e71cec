-- ===== src/Sort/Laws.antt =====
-- The laws of a stable sort.
use mathlib.Core.List.Perm
use mathlib.Core.List.{Perm}
use mailsec_probe.Common.{
  All, keep, ltb, if◌then◌else◌, Bool-cases, ℕ, ◌≡◌, refl, ap, ◌∙◌, inl, inr, Bool, true, false,
  List, [], ◌∷◌, arith, length, suc, sum_by, ◌+◌,
}
use mailsec_probe.Sort.{sort_stable, insert_sorted}

-- What is needed of `less`: it is asymmetric, and "not less" is transitive.
pub record IsOrder {ℓ} {A : Type ℓ} (less : A → A → Bool) : Type ℓ where
  pub asym : (x y : A) → less x y ≡ true → less y x ≡ false
  pub trans : (x y z : A) → less y x ≡ false → less z y ≡ false → less z x ≡ false

-- No element is less than one that stands before it.
abbrev pub IsSorted {ℓ} : {A : Type ℓ} → (A → A → Bool) → List A → Type 0
IsSorted less [] = Unit
IsSorted less (x ∷ xs) = All (λ y. less y x ≡ false) xs × IsSorted less xs

module _ {ℓ} {A : Type ℓ} (less : A → A → Bool) where
  insert_sorted-perm : (x : A) (ys : List A) → Perm (insert_sorted less x ys) (x ∷ ys)
  unfolding insert_sorted
  insert_sorted-perm x [] = Perm.refl (x ∷ [])
  insert_sorted-perm x (y ∷ ys) = elim (Bool-cases (less y x)) [
    | inl before ↦ rw before (Perm.trans (Perm.cons y (insert_sorted-perm x ys)) (Perm.swap x y ys))
    | inr behind ↦ rw behind (Perm.refl (x ∷ y ∷ ys))
  ]

  -- A sort only moves elements.
  pub sort_stable-perm : (xs : List A) → Perm (sort_stable less xs) xs
  unfolding sort_stable
  sort_stable-perm [] = Perm.refl []
  sort_stable-perm (x ∷ xs) =
      Perm.trans (insert_sorted-perm x (sort_stable less xs)) (Perm.cons x (sort_stable-perm xs))

  length-insert_sorted : (x : A) (ys : List A) → length (insert_sorted less x ys) ≡ suc (length ys)
  unfolding insert_sorted
  length-insert_sorted x [] = refl
  length-insert_sorted x (y ∷ ys) = ground (arith, length-insert_sorted x ys)

  pub length-sort_stable : (xs : List A) → length (sort_stable less xs) ≡ length xs
  unfolding sort_stable
  length-sort_stable [] = refl
  length-sort_stable (x ∷ xs) =
      length-insert_sorted x (sort_stable less xs) ∙ ap suc (length-sort_stable xs)

  All-insert_sorted :
      (P : A → Type 0) (x : A) (ys : List A) → P x → All P ys → All P (insert_sorted less x ys)
  unfolding insert_sorted
  All-insert_sorted P x [] px h = (px, tt)
  All-insert_sorted P x (y ∷ ys) px h = elim (Bool-cases (less y x)) [
    | inl before ↦ rw before (h.0, All-insert_sorted P x ys px h.1)
    | inr behind ↦ rw behind (px, h)
  ]

  module _ (order : IsOrder less) where
    All-behind :
        (x y : A) (ys : List A)
        → less y x ≡ false
        → All (λ z. less z y ≡ false) ys
        → All (λ z. less z x ≡ false) ys
    All-behind x y [] e h = tt
    All-behind x y (z ∷ ys) e h = (order.trans x y z e h.0, All-behind x y ys e h.1)

    insert_sorted-IsSorted :
        (x : A) (ys : List A) → IsSorted less ys → IsSorted less (insert_sorted less x ys)
    unfolding insert_sorted
    insert_sorted-IsSorted x [] h = (tt, tt)
    insert_sorted-IsSorted x (y ∷ ys) h = elim (Bool-cases (less y x)) [
      | inl before ↦ rw before (
        All-insert_sorted (λ z. less z y ≡ false) x ys (order.asym y x before) h.0,
        insert_sorted-IsSorted x ys h.1,
      )
      | inr behind ↦ rw behind ((behind, All-behind x y ys behind h.0), h)
    ]

    pub sort_stable-IsSorted : (xs : List A) → IsSorted less (sort_stable less xs)
    unfolding sort_stable
    sort_stable-IsSorted [] = tt
    sort_stable-IsSorted (x ∷ xs) =
        insert_sorted-IsSorted x (sort_stable less xs) (sort_stable-IsSorted xs)

  -- The test picks elements of one rank.
  abbrev pub SameRank : (A → Bool) → Type ℓ
  SameRank test = (x y : A) → test x ≡ true → test y ≡ true → less y x ≡ false

  keep-insert_sorted :
      (test : A → Bool)
      → SameRank test
      → (x : A) (ys : List A) → keep test (insert_sorted less x ys) ≡ keep test (x ∷ ys)
  unfolding insert_sorted
  keep-insert_sorted test same x [] = refl
  keep-insert_sorted test same x (y ∷ ys) =
      ground (arith, same x y, keep-insert_sorted test same x ys)

  -- Elements of one rank stay in their order.
  pub keep-sort_stable :
      (test : A → Bool)
      → SameRank test
      → (xs : List A) → keep test (sort_stable less xs) ≡ keep test xs
  unfolding sort_stable
  keep-sort_stable test same [] = refl
  keep-sort_stable test same (x ∷ xs) =
      keep-insert_sorted test same x (sort_stable less xs)
      ∙ ap (λ ys. if test x then x ∷ ys else ys) (keep-sort_stable test same xs)

-- Ranks given by numbers are an order.
pub rank-IsOrder {ℓ} : {A : Type ℓ} (rank : A → ℕ) → IsOrder (λ a b. ltb (rank a) (rank b))
rank-IsOrder rank = record { asym = λ x y h. ground arith; trans = λ x y z h k. ground arith }

-- Sorting does not change a sum.
module _ {ℓ} {A : Type ℓ} (less : A → A → Bool) (g : A → ℕ) where
  sum_by-insert_sorted :
      (x : A) (ys : List A) → sum_by g (insert_sorted less x ys) ≡ g x + sum_by g ys
  unfolding insert_sorted
  sum_by-insert_sorted x [] = refl
  sum_by-insert_sorted x (y ∷ ys) = elim (Bool-cases (less y x)) [
    | inl after ↦ rw (after, sum_by-insert_sorted x ys) (omega arith)
    | inr here ↦ rw here
  ]

  pub sum_by-sort_stable : (xs : List A) → sum_by g (sort_stable less xs) ≡ sum_by g xs
  unfolding sort_stable
  sum_by-sort_stable [] = refl
  sum_by-sort_stable (x ∷ xs) =
      rw (sum_by-insert_sorted x (sort_stable less xs), sum_by-sort_stable xs)
