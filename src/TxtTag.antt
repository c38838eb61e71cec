-- ===== src/TxtTag.antt =====
-- internal/probe/txttag/txttag.go: records of the form `tag=value; tag=value`.
pub mod Grammar
pub mod Select
pub mod Required
use mailsec_probe.Common.{
  Bool, true, false, ◌&&◌, Option, none, some, List, [], ◌∷◌, ◌++◌, if◌then◌else◌,
}
use mailsec_probe.Text.{Bytes, codes, str_eq, is_empty, trim_space, equal_fold, cut, split}

pub record Pair : Type 0 where
  pub tag : Bytes
  pub value : Bytes

-- What one round of the loop of `Parse` appends.
abbrev pair_of : Bytes → Option (Bytes × Bytes) → Pair
pair_of part none = record { tag = part; value = [] }
pair_of part (some (tag, value)) = record { tag = trim_space tag; value = trim_space value }

pub parse_part : Bytes → List Pair
parse_part raw =
    let part = trim_space raw in if is_empty part then [] else pair_of part (cut part b'=') ∷ []

parse_parts : List Bytes → List Pair
unfolding parse_part
parse_parts [] = []
parse_parts (part ∷ parts) = parse_part part ++ parse_parts parts

unfoldable pub parse : Bytes → List Pair
unfolding parse_parts split trim_space cut
parse s = parse_parts (split s b';')

unfoldable pub get : List Pair → Bytes → Bytes
unfolding str_eq
get [] tag = []
get (p ∷ ps) tag = if str_eq p.tag tag then p.value else get ps tag

unfoldable pub has : List Pair → Bytes → Bool
unfolding str_eq
has [] tag = false
has (p ∷ ps) tag = if str_eq p.tag tag then true else has ps tag

-- The first tag is "v" with the given version.
unfoldable pub is_version : List Pair → Bytes → Bool
unfolding equal_fold
is_version [] version = false
is_version (first ∷ ps) version = equal_fold first.tag (codes "v") && equal_fold first.value version

-- The result `(raw, pairs, ok)` is an `Option`.
unfoldable pub pick_by_version : List Bytes → Bytes → Option (Bytes × List Pair)
unfolding trim_space parse is_version
pick_by_version [] version = none
pick_by_version (rec ∷ recs) version =
    let rest = pick_by_version recs version in
    let trimmed = trim_space rec in
    let ps = parse trimmed in
    if is_empty trimmed then rest else if is_version ps version then some (rec, ps) else rest
