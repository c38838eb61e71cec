-- ===== src/MtaSts/Pattern.antt =====
-- `matchPattern` against RFC 8461: a pattern is a host name, or "*." and a suffix, which stands for
-- exactly one label before the suffix.
use mailsec_probe.Common.{
  length, take, length-append, take-append, ◌-◌, ◌≡◌, refl, ◌≢◌, ◌↔◌, true, false, [], ◌∷◌, ◌++◌,
  arith, drop, Bool-cases, sym, ap, subst, inl, inr,
}
use mailsec_probe.MtaSts.{match_pattern}
use mailsec_probe.Text.{Bytes, codes, is_empty, has_prefix, contains, str_eq, has_suffix}
use mailsec_probe.Text.Cut.{Lacks}
use mailsec_probe.Text.Match.{
  has_suffix_complete, str_eq_iff, str_eq_refl, has_prefix_sound, has_prefix_complete,
  has_suffix_sound, is_empty-false,
}

pub data Matches (host pattern : Bytes) : Type 0 where
  exact : host ≡ pattern → Matches host pattern
  wildcard :
      (label suffix : Bytes)
      → pattern ≡ codes "*." ++ suffix
      → host ≡ label ++ b'.' ∷ suffix
      → label ≢ []
      → Lacks b'.' label
      → Matches host pattern

contains_dot : (s : Bytes) → contains s (codes ".") ≡ false → Lacks b'.' s
unfolding contains has_prefix
contains_dot [] h = tt
contains_dot (c ∷ s) h = ground (arith, contains_dot s)

Lacks-dot : (s : Bytes) → Lacks b'.' s → contains s (codes ".") ≡ false
unfolding contains has_prefix
Lacks-dot [] h = refl
Lacks-dot (c ∷ s) h = ground (arith, Lacks-dot s)

ne-nil : (s : Bytes) → s ≢ [] → is_empty s ≡ false
ne-nil [] h = absurd (h refl)
ne-nil (c ∷ s) h = refl

-- Taking off the suffix and its dot leaves the label.
take_label :
    (label suffix : Bytes)
    → take (length (label ++ b'.' ∷ suffix) - length suffix - 1) (label ++ b'.' ∷ suffix) ≡ label
take_label label suffix =
    let n : length (label ++ b'.' ∷ suffix) - length suffix - 1 ≡ length label =
      omega (arith, length-append label (b'.' ∷ suffix)) in
    rw n (take-append label (b'.' ∷ suffix))

wildcard_sound :
    (host suffix : Bytes)
    → has_suffix host (codes "." ++ suffix) ≡ true
    → is_empty (take (length host - length suffix - 1) host) ≡ false
    → contains (take (length host - length suffix - 1) host) (codes ".") ≡ false
    → Matches host (codes "*." ++ suffix)
wildcard_sound host suffix h solid single =
    let (label, e) = has_suffix_sound host (codes "." ++ suffix) h in
    let same : take (length host - length suffix - 1) host ≡ label =
      rw e (take_label label suffix) in
    wildcard label suffix refl e (is_empty-false label (rw same at solid))
      (contains_dot label (rw same at single))

match_pattern_sound :
    (host pattern : Bytes) → match_pattern host pattern ≡ true → Matches host pattern
unfolding match_pattern
match_pattern_sound host pattern h = elim (Bool-cases (str_eq host pattern)) [
  | inl same ↦ exact ((str_eq_iff host pattern).0 same)
  | inr other ↦ elim (Bool-cases (has_prefix pattern (codes "*."))) [
    | inl star ↦
        let (suffix, e) = has_prefix_sound pattern (codes "*.") star in
        let tail : drop 2 pattern ≡ suffix = ap (drop 2) e in
        subst (Matches host) (sym e) (
          wildcard_sound host suffix (rw (← tail) (ground arith)) (rw (← tail) (ground arith))
            (rw (← tail) (ground arith)))
    | inr bare ↦ cc (rw (other, bare) at h)
  ]
]

match_pattern_complete :
    (host pattern : Bytes) → Matches host pattern → match_pattern host pattern ≡ true
unfolding match_pattern
match_pattern_complete host pattern (exact e) = rw (e, str_eq_refl pattern)
match_pattern_complete host pattern (wildcard label suffix p e ne single) =
    rw (p, e)
      (rw
        (
          take_label label suffix,
          has_suffix_complete label (b'.' ∷ suffix),
          ne-nil label ne,
          Lacks-dot label single,
          has_prefix_complete (codes "*.") suffix,
        )
        (ground arith))

-- `matchPattern` accepts a host exactly when it is the pattern, or the pattern is a wildcard and the
-- host is one label, a dot and the pattern's suffix.
pub match_pattern_iff :
    (host pattern : Bytes) → (match_pattern host pattern ≡ true) ↔ Matches host pattern
match_pattern_iff host pattern =
    (match_pattern_sound host pattern, match_pattern_complete host pattern)
