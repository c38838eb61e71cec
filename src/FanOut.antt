-- ===== src/FanOut.antt =====
-- The use of errgroup that the program shares: one goroutine for each element of a list, which
-- writes its result to the element's own place of a slice, and a wait for all of them.
-- A schedule is the order in which the goroutines write, given by their indices.
pub mod Order
use mailsec_probe.Common.{
  length, get_elem?, ◌==◌, ℕ, zero, suc, ◌<◌, ◌≡◌, Bool, true, false, ◌||◌, Option, none, some,
  List, [], ◌∷◌, map,
}

module _ {A B : Type 0} (f : A → B) where
  unfoldable pub set_slot : ℕ → B → List B → List B
  set_slot i b [] = []
  set_slot zero b (s ∷ slots) = b ∷ slots
  set_slot (suc i) b (s ∷ slots) = s ∷ set_slot i b slots

  abbrev pub finish_some : ℕ → Option A → List B → List B
  finish_some i none slots = slots
  finish_some i (some x) slots = set_slot i (f x) slots

  -- Goroutine `i` writes.
  abbrev pub finish : List A → ℕ → List B → List B
  finish xs i slots = finish_some i (get_elem? xs i) slots

  unfoldable pub run_schedule : List A → List ℕ → List B → List B
  unfolding set_slot
  run_schedule xs [] slots = slots
  run_schedule xs (i ∷ schedule) slots = run_schedule xs schedule (finish xs i slots)

  -- The slice starts with the zero value at every place.
  unfoldable pub fan_out : B → List A → List ℕ → List B
  unfolding run_schedule
  fan_out blank xs schedule = run_schedule xs schedule (map (λ _. blank) xs)

abbrev pub listed : ℕ → List ℕ → Bool
listed i [] = false
listed i (j ∷ js) = i == j || listed i js

-- Every goroutine writes.
abbrev pub IsComplete : {A : Type 0} → List A → List ℕ → Type 0
IsComplete xs schedule = (i : ℕ) → i < length xs → listed i schedule ≡ true
