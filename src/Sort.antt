-- ===== src/Sort.antt =====
-- `sort.SliceStable` and `sort.Strings`. A stable sort has one result, which insertion gives; the
-- argument is Go's `less`. Equal strings cannot be told apart, so the result of `sort.Strings` is
-- that of a stable sort.
pub mod Laws
use mailsec_probe.Common.{ltb, ◌==◌, if◌then◌else◌, Bool, true, false, ◌&&◌, ◌||◌, List, [], ◌∷◌}
use mailsec_probe.Text.{Bytes}

module _ {ℓ} {A : Type ℓ} (less : A → A → Bool) where
  unfoldable pub insert_sorted : A → List A → List A
  insert_sorted x [] = x ∷ []
  insert_sorted x (y ∷ ys) = if less y x then y ∷ insert_sorted x ys else x ∷ y ∷ ys

  unfoldable pub sort_stable : List A → List A
  unfolding insert_sorted
  sort_stable [] = []
  sort_stable (x ∷ xs) = insert_sorted x (sort_stable xs)

-- `s < t` on strings: byte by byte, and a proper prefix is smaller.
unfoldable pub str_less : Bytes → Bytes → Bool
str_less [] [] = false
str_less [] (y ∷ ys) = true
str_less (x ∷ xs) [] = false
str_less (x ∷ xs) (y ∷ ys) = ltb x y || (x == y && str_less xs ys)

unfoldable pub sort_strings : List Bytes → List Bytes
unfolding sort_stable str_less
sort_strings xs = sort_stable str_less xs
