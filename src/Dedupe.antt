-- ===== src/Dedupe.antt =====
-- The loop of `dedupe`, in internal/probe/dkim/dkim.go and internal/cli/cli.go, and of its likes:
-- it normalises each text, drops the empty ones and those seen before, and keeps the order. The map
-- `seen` is the list of its keys.
pub mod Laws
pub mod Members
use mailsec_probe.Common.{if◌then◌else◌, Bool, false, ◌||◌, List, [], ◌∷◌}
use mailsec_probe.Text.{Bytes, str_eq, is_empty}

unfoldable pub mem : Bytes → List Bytes → Bool
unfolding str_eq
mem s [] = false
mem s (x ∷ xs) = str_eq x s || mem s xs

module _ (norm : Bytes → Bytes) where
  unfoldable pub dedupe_from : List Bytes → List Bytes → List Bytes
  unfolding mem
  dedupe_from seen [] = []
  dedupe_from seen (s ∷ ss) =
      let t = norm s in
      let skip = dedupe_from seen ss in
      let add = t ∷ dedupe_from (t ∷ seen) ss in if is_empty t || mem t seen then skip else add

  unfoldable pub dedupe_by : List Bytes → List Bytes
  unfolding dedupe_from
  dedupe_by = dedupe_from []
