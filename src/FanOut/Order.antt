-- ===== src/FanOut/Order.antt =====
-- The fan-outs of errgroup under different schedules.
use mailsec_probe.FanOut.{set_slot, finish, run_schedule, fan_out, listed, IsComplete}
use mailsec_probe.Common.{
  length, get_elem?, ltb, ◌==◌, Bool-cases, Option-cases, ℕ, zero, suc, ◌≤◌, ◌<◌, ◌≡◌, refl, sym,
  ap, ◌∙◌, inl, inr, true, false, none, some, List, [], ◌∷◌, map, arith,
}

get_elem?-none {ℓ} : {A : Type ℓ} (xs : List A) (i : ℕ) → length xs ≤ i → get_elem? xs i ≡ none
get_elem?-none [] i h = refl
get_elem?-none (x ∷ xs) zero h = absurd (omega (arith, h))
get_elem?-none (x ∷ xs) (suc i) h = get_elem?-none xs i (omega (arith, h))

get_elem?-ext {ℓ} :
    {A : Type ℓ} (xs ys : List A) → ((i : ℕ) → get_elem? xs i ≡ get_elem? ys i) → xs ≡ ys
get_elem?-ext [] [] h = refl
get_elem?-ext [] (y ∷ ys) h = let e = h 0 in cc
get_elem?-ext (x ∷ xs) [] h = let e = h 0 in cc
get_elem?-ext (x ∷ xs) (y ∷ ys) h =
    let e = h 0 in let same : x ≡ y = cc in let rest = get_elem?-ext xs ys (λ i. h (suc i)) in cc

length-map {ℓ ℓ'} :
    {A : Type ℓ} {B : Type ℓ'} (g : A → B) (xs : List A) → length (map g xs) ≡ length xs
length-map g [] = refl
length-map g (x ∷ xs) = ap suc (length-map g xs)

module _ {A B : Type 0} (f : A → B) where
  length-set_slot : (i : ℕ) (b : B) (slots : List B) → length (set_slot f i b slots) ≡ length slots
  unfolding set_slot
  length-set_slot i b [] = refl
  length-set_slot zero b (s ∷ slots) = refl
  length-set_slot (suc i) b (s ∷ slots) = ap suc (length-set_slot i b slots)

  get-set_slot :
      (i : ℕ) (b : B) (slots : List B)
      → i < length slots
      → get_elem? (set_slot f i b slots) i ≡ some b
  unfolding set_slot
  get-set_slot i b [] h = absurd (omega (arith, h))
  get-set_slot zero b (s ∷ slots) h = refl
  get-set_slot (suc i) b (s ∷ slots) h = get-set_slot i b slots (omega (arith, h))

  get-set_slot-ne :
      (i j : ℕ) (b : B) (slots : List B)
      → (i == j) ≡ false
      → get_elem? (set_slot f j b slots) i ≡ get_elem? slots i
  unfolding set_slot
  get-set_slot-ne i j b [] h = refl
  get-set_slot-ne zero zero b (s ∷ slots) h = cc
  get-set_slot-ne zero (suc j) b (s ∷ slots) h = refl
  get-set_slot-ne (suc i) zero b (s ∷ slots) h = refl
  get-set_slot-ne (suc i) (suc j) b (s ∷ slots) h = get-set_slot-ne i j b slots (ground arith)

  length-finish :
      (xs : List A) (i : ℕ) (slots : List B) → length (finish f xs i slots) ≡ length slots
  length-finish xs i slots = elim (Option-cases (get_elem? xs i)) [
    | inl e ↦ rw e
    | inr (x, e) ↦ rw e (length-set_slot i (f x) slots)
  ]

  get-finish-ne :
      (xs : List A) (i j : ℕ) (slots : List B)
      → (i == j) ≡ false
      → get_elem? (finish f xs j slots) i ≡ get_elem? slots i
  get-finish-ne xs i j slots h = elim (Option-cases (get_elem? xs j)) [
    | inl e ↦ rw e
    | inr (x, e) ↦ rw e (get-set_slot-ne i j (f x) slots h)
  ]

  get-map :
      (xs : List A) (i : ℕ) {x : A} → get_elem? xs i ≡ some x → get_elem? (map f xs) i ≡ some (f x)
  get-map [] i h = cc
  get-map (y ∷ xs) zero h = cc
  get-map (y ∷ xs) (suc i) h = get-map xs i h

  get-some : (xs : List A) (i : ℕ) → i < length xs → (x : A) × (get_elem? xs i ≡ some x)
  get-some [] i h = absurd (omega (arith, h))
  get-some (x ∷ xs) zero h = (x, refl)
  get-some (x ∷ xs) (suc i) h = get-some xs i (omega (arith, h))

  -- The place of a goroutine that has written holds its result.
  get-finish :
      (xs : List A) (i : ℕ) (slots : List B)
      → length slots ≡ length xs
      → i < length xs
      → get_elem? (finish f xs i slots) i ≡ get_elem? (map f xs) i
  get-finish xs i slots same h =
      let (x, e) = get-some xs i h in
      rw (e, get-map xs i e) (get-set_slot i (f x) slots (omega (arith, same, h)))

  run_schedule-unlisted :
      (xs : List A) (schedule : List ℕ) (i : ℕ) (slots : List B)
      → listed i schedule ≡ false
      → get_elem? (run_schedule f xs schedule slots) i ≡ get_elem? slots i
  unfolding run_schedule
  run_schedule-unlisted xs [] i slots h = refl
  run_schedule-unlisted xs (j ∷ schedule) i slots h =
      run_schedule-unlisted xs schedule i (finish f xs j slots) (ground arith)
      ∙ get-finish-ne xs i j slots (ground arith)

  run_schedule-listed :
      (xs : List A) (schedule : List ℕ) (i : ℕ) (slots : List B)
      → length slots ≡ length xs
      → i < length xs
      → listed i schedule ≡ true
      → get_elem? (run_schedule f xs schedule slots) i ≡ get_elem? (map f xs) i
  unfolding run_schedule
  run_schedule-listed xs [] i slots same h l = cc
  run_schedule-listed xs (j ∷ schedule) i slots same h l =
      let same' = length-finish xs j slots ∙ same in
      elim (Bool-cases (listed i schedule)) [
        | inl later ↦ run_schedule-listed xs schedule i (finish f xs j slots) same' h later
        | inr never ↦
            let here : i ≡ j = ground (arith, l, never) in
            run_schedule-unlisted xs schedule i (finish f xs j slots) never
            ∙ (rw (← here) (get-finish xs i slots same h))
      ]

  length-run_schedule :
      (xs : List A) (schedule : List ℕ) (slots : List B)
      → length (run_schedule f xs schedule slots) ≡ length slots
  unfolding run_schedule
  length-run_schedule xs [] slots = refl
  length-run_schedule xs (j ∷ schedule) slots =
      length-run_schedule xs schedule (finish f xs j slots) ∙ length-finish xs j slots

  pub fan_out-map :
      (blank : B) (xs : List A) (schedule : List ℕ)
      → IsComplete xs schedule
      → fan_out f blank xs schedule ≡ map f xs
  unfolding fan_out
  fan_out-map blank xs schedule complete =
      let slots = map (λ (_ : A). blank) xs in
      let size = length-map (λ (_ : A). blank) xs in
      get_elem?-ext (run_schedule f xs schedule slots) (map f xs) (λ i.
        elim (Bool-cases (ltb i (length xs))) [
          | inl low ↦
              run_schedule-listed xs schedule i slots size (ground arith)
                (complete i (ground arith))
          | inr high ↦
              let low : length xs ≤ i = ground arith in
              get_elem?-none (run_schedule f xs schedule slots) i
                (omega (arith, length-run_schedule xs schedule slots, size, low))
              ∙ sym (get_elem?-none (map f xs) i (omega (arith, length-map f xs, low)))
        ])
