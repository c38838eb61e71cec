-- ===== src/TxtTag/Grammar.antt =====
-- `Parse` of internal/probe/txttag/txttag.go against the grammar of the package comment.
use mathlib.Core.List.{cons-ne-nil}
use mailsec_probe.Common.{
  ℕ, false, List, [], ◌∷◌, ◌++◌, ◌≡◌, ◌≢◌, refl, map, All, All-append, Bool-cases, subst, inl, inr,
  Option, none, some,
}
use mailsec_probe.Text.{
  Bytes, is_empty, is_space, trim_left, trim_right, trim_space, join, cut, split,
}
use mailsec_probe.Text.Trim.{
  IsTrimmed, Blank, trim_space-append, trim_space-pad, trim_space-trim_left, trim_space-trim_right,
  trim_space-IsTrimmed,
}
use mailsec_probe.Text.Cut.{
  Lacks, cut-append, split-join, cut-none, cut-some, split-All-Lacks, trim_left-Lacks,
  trim_space-Lacks,
}
use mailsec_probe.TxtTag.{Pair, parse_part, parse_parts, parse, pair_of}

-- One `tag = value`, with the white space that a writer may put around its parts.
pub record Entry : Type 0 where
  pub before : Bytes
  pub tag : Bytes
  pub mid : Bytes
  pub gap : Bytes
  pub value : Bytes
  pub after : Bytes

abbrev left_side : Entry → Bytes
left_side e = e.before ++ (e.tag ++ e.mid)

abbrev right_side : Entry → Bytes
right_side e = e.gap ++ (e.value ++ e.after)

unfoldable pub spell : Entry → Bytes
spell e = left_side e ++ b'=' ∷ right_side e

abbrev pub meaning : Entry → Pair
meaning e = record { tag = e.tag; value = e.value }

pub record IsEntry (e : Entry) : Type 0 where
  pub before_blank : Blank e.before
  pub mid_blank : Blank e.mid
  pub gap_blank : Blank e.gap
  pub after_blank : Blank e.after
  pub tag_trimmed : IsTrimmed e.tag
  pub value_trimmed : IsTrimmed e.value
  pub tag_lacks : Lacks b'=' (left_side e)
  pub no_semicolon : Lacks b';' (spell e)

equals_solid : is_space b'=' ≡ false
unfolding is_space
equals_solid = refl

is_empty-append : (a : Bytes) (e : ℕ) (b : Bytes) → is_empty (a ++ e ∷ b) ≡ false
is_empty-append [] e b = refl
is_empty-append (c ∷ a) e b = refl

-- A part is cut at its first "=", and its two sides are trimmed.
pub parse_part-append :
    (a b : Bytes)
    → Lacks b'=' a
    → parse_part (a ++ b'=' ∷ b) ≡ record { tag = trim_space a; value = trim_space b } ∷ []
unfolding parse_part
parse_part-append a b h = rw (
  trim_space-append b'=' equals_solid a b,
  is_empty-append (trim_left a) b'=' (trim_right b),
  cut-append (trim_left a) (trim_right b) b'=' (trim_left-Lacks b'=' a h),
  trim_space-trim_left a,
  trim_space-trim_right b,
)

parse_part-spell : (e : Entry) → IsEntry e → parse_part (spell e) ≡ meaning e ∷ []
unfolding spell
parse_part-spell e h = rw (parse_part-append (left_side e) (right_side e) h.tag_lacks) (
    rw (
      trim_space-pad e.before e.tag e.mid h.before_blank h.tag_trimmed h.mid_blank,
      trim_space-pad e.gap e.value e.after h.gap_blank h.value_trimmed h.after_blank,
    ))

parse_parts-spell : (es : List Entry) → All IsEntry es → parse_parts (map spell es) ≡ map meaning es
unfolding parse_parts
parse_parts-spell [] h = refl
parse_parts-spell (e ∷ es) h = rw (parse_part-spell e h.0, parse_parts-spell es h.1)

spell-Lacks : (es : List Entry) → All IsEntry es → All (Lacks b';') (map spell es)
spell-Lacks [] h = tt
spell-Lacks (e ∷ es) h = (h.0.no_semicolon, spell-Lacks es h.1)

-- `Parse` reads back every record that is spelled by the grammar: entries `tag = value` separated
-- by ";", at least one, with white space anywhere around the tags and the values.
pub parse-spell :
    (es : List Entry)
    → es ≢ []
    → All IsEntry es
    → parse (join (map spell es) (b';' ∷ [])) ≡ map meaning es
unfolding parse
parse-spell [] ne h = absurd (ne refl)
parse-spell (e ∷ es) ne h =
    rw (split-join (map spell (e ∷ es)) b';' (cons-ne-nil _ _) (spell-Lacks (e ∷ es) h))
      (parse_parts-spell (e ∷ es) h)

-- What is known of a pair that `Parse` returns.
pub record IsClean (p : Pair) : Type 0 where
  pub tag_trimmed : IsTrimmed p.tag
  pub value_trimmed : IsTrimmed p.value
  pub tag_lacks : Lacks b'=' p.tag
  pub tag_no_semicolon : Lacks b';' p.tag
  pub value_no_semicolon : Lacks b';' p.value

Lacks-append-left : (b : ℕ) (xs ys : Bytes) → Lacks b (xs ++ ys) → Lacks b xs
Lacks-append-left b [] ys h = tt
Lacks-append-left b (c ∷ xs) ys h = (h.0, Lacks-append-left b xs ys h.1)

Lacks-append-right : (b : ℕ) (xs ys : Bytes) → Lacks b (xs ++ ys) → Lacks b ys
Lacks-append-right b [] ys h = h
Lacks-append-right b (c ∷ xs) ys h = Lacks-append-right b xs ys h.1

IsTrimmed-nil : IsTrimmed []
IsTrimmed-nil = unfold trim_left trim_right in record { left = refl; right = refl }

pair_of-IsClean :
    (part : Bytes) (halves : Option (Bytes × Bytes))
    → cut part b'=' ≡ halves
    → IsTrimmed part
    → Lacks b';' part
    → IsClean (pair_of part halves)
pair_of-IsClean part none e t h = record {
  tag_trimmed = t;
  value_trimmed = IsTrimmed-nil;
  tag_lacks = cut-none part b'=' e;
  tag_no_semicolon = h;
  value_no_semicolon = tt;
}
pair_of-IsClean part (some (a, b)) e t h =
    let (whole, lacks) = cut-some part b'=' e in
    let lack : Lacks b';' (a ++ b'=' ∷ b) = subst (Lacks b';') whole h in
    record {
      tag_trimmed = trim_space-IsTrimmed a;
      value_trimmed = trim_space-IsTrimmed b;
      tag_lacks = trim_space-Lacks b'=' a lacks;
      tag_no_semicolon = trim_space-Lacks b';' a (Lacks-append-left b';' a (b'=' ∷ b) lack);
      value_no_semicolon = trim_space-Lacks b';' b (Lacks-append-right b';' a (b'=' ∷ b) lack).1;
    }

parse_part-IsClean : (raw : Bytes) → Lacks b';' raw → All IsClean (parse_part raw)
unfolding parse_part
parse_part-IsClean raw h = elim (Bool-cases (is_empty (trim_space raw))) [
  | inl blank ↦ rw blank tt
  | inr solid ↦ rw solid (
    pair_of-IsClean (trim_space raw) (cut (trim_space raw) b'=') refl (trim_space-IsTrimmed raw)
        (trim_space-Lacks b';' raw h),
    tt,
  )
]

parse_parts-IsClean :
    (parts : List Bytes) → All (Lacks b';') parts → All IsClean (parse_parts parts)
unfolding parse_parts
parse_parts-IsClean [] h = tt
parse_parts-IsClean (part ∷ parts) h =
    All-append IsClean (parse_part part) (parse_parts parts) (parse_part-IsClean part h.0)
      (parse_parts-IsClean parts h.1)

-- Every pair of `Parse`, for every text: its tag and its value have no white space at their ends
-- and hold no ";", and its tag holds no "=".
pub parse-IsClean : (s : Bytes) → All IsClean (parse s)
unfolding parse
parse-IsClean s = parse_parts-IsClean (split s b';') (split-All-Lacks s b';')
