-- ===== src/TxtTag/Select.antt =====
-- `Get`, `Has` and `PickByVersion` of internal/probe/txttag/txttag.go.
use mailsec_probe.Common.{
  true, false, none, some, List, [], ◌∷◌, ◌++◌, ◌≡◌, ◌⊎◌, refl, ap, inl, inr, arith, Bool-cases,
  All, ◌↔◌, sym, ◌∙◌, ◌≢◌, subst,
}
use mailsec_probe.Text.{Bytes, is_empty, trim_space, codes, to_lower}
use mailsec_probe.Text.Match.{str_eq_refl, equal_fold_iff, is_empty_iff, is_empty-false}
use mailsec_probe.TxtTag.{Pair, parse, get, has, is_version, pick_by_version}

-- A tag that no earlier pair has is looked up at its first pair, whatever follows.
pub get_first :
    (before : List Pair) (p : Pair) (after : List Pair)
    → has before p.tag ≡ false
    → (has (before ++ p ∷ after) p.tag ≡ true) × (get (before ++ p ∷ after) p.tag ≡ p.value)
unfolding has get
get_first [] p after h = ground (arith, str_eq_refl p.tag)
get_first (q ∷ before) p after h = ground (arith, get_first before p after)

pub get_absent : (ps : List Pair) (tag : Bytes) → has ps tag ≡ false → get ps tag ≡ []
unfolding has get
get_absent [] tag h = refl
get_absent (p ∷ ps) tag h = ground (arith, get_absent ps tag)

-- A TXT record declares the version: its text is not blank and its first tag is "v", with the
-- version for value, up to letter case.
pub record Declares (version rec : Bytes) : Type 0 where
  pub solid : trim_space rec ≢ []
  pub first : Pair
  pub others : List Pair
  pub tags : parse (trim_space rec) ≡ first ∷ others
  pub tag_v : to_lower first.tag ≡ codes "v"
  pub spelled : to_lower first.value ≡ to_lower version

lower_v : to_lower (codes "v") ≡ codes "v"
unfolding to_lower
lower_v = refl

-- The two tests of the loop.
abbrev Passes : Bytes → Bytes → Type 0
Passes version rec =
    (is_empty (trim_space rec) ≡ false) × (is_version (parse (trim_space rec)) version ≡ true)

Declares-Passes : (version rec : Bytes) → Declares version rec → Passes version rec
unfolding is_version
Declares-Passes version rec d =
    let tag = (equal_fold_iff d.first.tag (codes "v")).1 (d.tag_v ∙ sym lower_v) in
    let value = (equal_fold_iff d.first.value version).1 d.spelled in
    let solid : is_empty (trim_space rec) ≡ false = elim (Bool-cases (is_empty (trim_space rec))) [
      | inl blank ↦ absurd (d.solid ((is_empty_iff (trim_space rec)).0 blank))
      | inr full ↦ full
    ] in
    (solid, rw (d.tags, tag, value))

Passes-Declares : (version rec : Bytes) → Passes version rec → Declares version rec
unfolding is_version
Passes-Declares version rec (solid, found) = go (parse (trim_space rec)) refl found
  where
    go :
        (ps : List Pair)
        → parse (trim_space rec) ≡ ps
        → is_version ps version ≡ true
        → Declares version rec
    go [] e h = cc
    go (p ∷ ps) e h = record {
      solid = is_empty-false (trim_space rec) solid;
      first = p;
      others = ps;
      tags = e;
      tag_v = (equal_fold_iff p.tag (codes "v")).0 (ground arith) ∙ lower_v;
      spelled = (equal_fold_iff p.value version).0 (ground arith);
    }

-- The record and the pairs that `PickByVersion` returns, seen from the list of records.
pub record IsPick (recs : List Bytes) (version raw : Bytes) (ps : List Pair) : Type 0 where
  pub before : List Bytes
  pub after : List Bytes
  pub splits : recs ≡ before ++ raw ∷ after
  pub others : All (λ r. ¬ Declares version r) before
  pub declares : Declares version raw
  pub parsed : ps ≡ parse (trim_space raw)

not-Declares :
    (version rec : Bytes)
    → (is_empty (trim_space rec) ≡ true) ⊎ (is_version (parse (trim_space rec)) version ≡ false)
    → ¬ Declares version rec
not-Declares version rec why d = let (solid, found) = Declares-Passes version rec d in ground arith

IsPick-cons :
    {recs : List Bytes} {version raw : Bytes} {ps : List Pair} (rec : Bytes)
    → ¬ Declares version rec
    → IsPick recs version raw ps
    → IsPick (rec ∷ recs) version raw ps
IsPick-cons rec h p = record {
  before = rec ∷ p.before;
  after = p.after;
  splits = ap (◌∷◌ rec) p.splits;
  others = (h, p.others);
  declares = p.declares;
  parsed = p.parsed;
}

pick_by_version_sound :
    (recs : List Bytes) (version : Bytes) {raw : Bytes} {ps : List Pair}
    → pick_by_version recs version ≡ some (raw, ps)
    → IsPick recs version raw ps
unfolding pick_by_version
pick_by_version_sound [] version h = cc
pick_by_version_sound (rec ∷ recs) version {raw} {ps} h =
    elim (Bool-cases (is_empty (trim_space rec))) [
      | inl blank ↦
          IsPick-cons rec (not-Declares version rec (inl blank))
            (pick_by_version_sound recs version (rw blank at h))
      | inr solid ↦ elim (Bool-cases (is_version (parse (trim_space rec)) version)) [
        | inl found ↦ record {
          before = [];
          after = recs;
          splits = ground arith;
          others = tt;
          declares =
              let same : rec ≡ raw = cc (rw (solid, found) at h) in
              subst (Declares version) same (Passes-Declares version rec (solid, found));
          parsed = ground arith;
        }
        | inr other ↦
            IsPick-cons rec (not-Declares version rec (inr other))
              (pick_by_version_sound recs version (rw (solid, other) at h))
      ]
    ]

undeclared :
    (version rec : Bytes)
    → ¬ Declares version rec
    → (is_empty (trim_space rec) ≡ false → is_version (parse (trim_space rec)) version ≡ false)
undeclared version rec h solid = elim (Bool-cases (is_version (parse (trim_space rec)) version)) [
  | inl found ↦ absurd (h (Passes-Declares version rec (solid, found)))
  | inr other ↦ other
]

pick_by_version-append :
    (before : List Bytes) (version raw : Bytes) (after : List Bytes)
    → All (λ r. ¬ Declares version r) before
    → Declares version raw
    → pick_by_version (before ++ raw ∷ after) version ≡ some (raw, parse (trim_space raw))
unfolding pick_by_version
pick_by_version-append [] version raw after h d =
    let (solid, found) = Declares-Passes version raw d in rw (solid, found)
pick_by_version-append (r ∷ before) version raw after h d =
    ground (arith, undeclared version r h.0, pick_by_version-append before version raw after h.1 d)

-- `PickByVersion` returns a record and its pairs exactly when the record is the first of the list
-- that declares the version, and the pairs are what `Parse` makes of it.
pub pick_by_version_iff :
    (recs : List Bytes) (version raw : Bytes) (ps : List Pair)
    → (pick_by_version recs version ≡ some (raw, ps)) ↔ IsPick recs version raw ps
pick_by_version_iff recs version raw ps = (
  pick_by_version_sound recs version,
  λ p.
      rw (p.splits, p.parsed)
        (pick_by_version-append p.before version raw p.after p.others p.declares),
)

-- With no such record it returns nothing.
pub pick_by_version-none :
    (recs : List Bytes) (version : Bytes)
    → (pick_by_version recs version ≡ none) ↔ All (λ r. ¬ Declares version r) recs
unfolding pick_by_version
pick_by_version-none [] version = ((λ _. tt), (λ _. refl))
pick_by_version-none (rec ∷ recs) version = ground (
  arith,
  Declares-Passes version rec,
  Passes-Declares version rec,
  pick_by_version-none recs version,
)
