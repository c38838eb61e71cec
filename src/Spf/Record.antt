-- ===== src/Spf/Record.antt =====
-- `isSPF` of internal/probe/spf/spf.go, against the form of an SPF record.
use mailsec_probe.Common.{
  length, take, drop, length-append, take-append, drop-append, ℕ, zero, suc, ◌+◌, ◌≡◌, refl, sym,
  ap, ◌∙◌, ◌↔◌, ◌⊎◌, true, [], ◌∷◌, ◌++◌, arith,
}
use mailsec_probe.Spf.{is_spf, blank_next}
use mailsec_probe.Text.{Bytes, codes, trim_space, to_lower, equal_fold}
use mailsec_probe.Text.Match.{equal_fold_iff}

-- The text behind the version is empty or begins with a blank.
abbrev pub BeginsBlank : Bytes → Type 0
BeginsBlank [] = Unit
BeginsBlank (c ∷ s) = (c ≡ b' ') ⊎ (c ≡ b'\t')

-- Without the white space around it, the record is the version "v=spf1", in any letter case,
-- followed by nothing or by a blank.
pub record IsSpf (r : Bytes) : Type 0 where
  pub version : Bytes
  pub rest : Bytes
  pub splits : trim_space r ≡ version ++ rest
  pub spelled : to_lower version ≡ codes "v=spf1"
  pub ends : BeginsBlank rest

lower_version : to_lower (codes "v=spf1") ≡ codes "v=spf1"
unfolding to_lower
lower_version = refl

length-to_lower : (s : Bytes) → length (to_lower s) ≡ length s
unfolding to_lower
length-to_lower [] = refl
length-to_lower (c ∷ s) = ap suc (length-to_lower s)

take-append-drop : (n : ℕ) (s : Bytes) → take n s ++ drop n s ≡ s
take-append-drop zero s = refl
take-append-drop (suc n) [] = refl
take-append-drop (suc n) (c ∷ s) = ap (◌∷◌ c) (take-append-drop n s)

blank_next_sound : (s : Bytes) → blank_next s ≡ true → BeginsBlank s
blank_next_sound [] h = tt
blank_next_sound (c ∷ s) h = ground arith

blank_next_complete : (s : Bytes) → BeginsBlank s → blank_next s ≡ true
blank_next_complete [] h = refl
blank_next_complete (c ∷ s) h = ground arith

is_spf_sound : (r : Bytes) → is_spf r ≡ true → IsSpf r
unfolding is_spf
is_spf_sound r h =
    let t : Bytes = trim_space r in
    record {
      version = take 6 t;
      rest = drop 6 t;
      splits = sym (take-append-drop 6 t);
      spelled = (equal_fold_iff (take 6 t) (codes "v=spf1")).0 (ground arith) ∙ lower_version;
      ends = blank_next_sound (drop 6 t) (ground arith);
    }

is_spf_complete : (r : Bytes) → IsSpf r → is_spf r ≡ true
unfolding is_spf
is_spf_complete r i =
    let six : length i.version ≡ 6 = sym (length-to_lower i.version) ∙ ap length i.spelled in
    let front : take 6 (trim_space r) ≡ i.version =
      rw (i.splits, ← six) (take-append i.version i.rest) in
    let back : drop 6 (trim_space r) ≡ i.rest =
      rw (i.splits, ← six) (drop-append i.version i.rest) in
    let whole : length (trim_space r) ≡ 6 + length i.rest =
      rw (i.splits, ← six) (length-append i.version i.rest) in
    let same : equal_fold i.version (codes "v=spf1") ≡ true =
      (equal_fold_iff i.version (codes "v=spf1")).1 (i.spelled ∙ sym lower_version) in
    rw (front, back) (ground (arith, blank_next_complete i.rest i.ends))

-- `isSPF` accepts exactly the records which, without the white space around them, are "v=spf1" in any
-- letter case followed by nothing, or by a text that begins with a space or a tab.
pub is_spf_iff : (r : Bytes) → (is_spf r ≡ true) ↔ IsSpf r
is_spf_iff r = (is_spf_sound r, is_spf_complete r)
