-- ===== src/MtaTls/Chain/Match.antt =====
-- `matchTLSA` and `bytesEqual` of internal/probe/mtatls/mtatls.go: which record is found.
use mailsec_probe.Common.{
  length, ℕ, ◌≡◌, refl, ◌↔◌, true, [], ◌∷◌, arith, get_elem?, take, All, some, List, ◌==◌,
  Bool-cases, zero, suc, inl, inr, Option, none, ◌≢◌, subst,
}
use mailsec_probe.DnsClient.{TlsaRecord}
use mailsec_probe.MtaTls.{Certificate, Crypto}
use mailsec_probe.MtaTls.Chain.{
  bytes_equal, bytes_equal_from, matches, first_match, source_of, digest_of, equals, digested,
  next_index, match_tlsa,
}
use mailsec_probe.Text.{Bytes}

bytes_equal_from_iff : (a b : Bytes) → length a ≡ length b → (bytes_equal_from a b ≡ true) ↔ (a ≡ b)
unfolding bytes_equal_from
bytes_equal_from_iff [] [] h = ground arith
bytes_equal_from_iff [] (y ∷ b) h = absurd (omega (arith, h))
bytes_equal_from_iff (x ∷ a) [] h = absurd (omega (arith, h))
bytes_equal_from_iff (x ∷ a) (y ∷ b) h =
    let rest = bytes_equal_from_iff a b (omega (arith, h)) in ground arith

pub bytes_equal_iff : (a b : Bytes) → (bytes_equal a b ≡ true) ↔ (a ≡ b)
unfolding bytes_equal
bytes_equal_iff a b = (
  (λ h.
      let same : length a ≡ length b = ground arith in
      (bytes_equal_from_iff a b same).0 (ground arith)),
  λ e. rw e (rw ((bytes_equal_from_iff b b refl).1 refl) (ground arith)),
)

-- RFC 6698: the part of the certificate that a selector names, and its form by the matching type.
pub data Selects (leaf : Certificate) (selector : ℕ) (part : Bytes) : Type 0 where
  whole : selector ≡ 0 → part ≡ leaf.raw → Selects leaf selector part
  public_key : selector ≡ 1 → part ≡ leaf.raw_spki → Selects leaf selector part

pub data Digests (crypto : Crypto) (source : Bytes) (matching_type : ℕ) (digest : Bytes)
    : Type 0 where
  exact : matching_type ≡ 0 → digest ≡ source → Digests crypto source matching_type digest
  by_sha256 :
      matching_type ≡ 1 → digest ≡ crypto.sha256 source → Digests crypto source matching_type digest
  by_sha512 :
      matching_type ≡ 2 → digest ≡ crypto.sha512 source → Digests crypto source matching_type digest

-- The record holds the digest that it names of the part that it names.
pub record IsMatch (crypto : Crypto) (leaf : Certificate) (rec : TlsaRecord) : Type 0 where
  pub part : Bytes
  pub selected : Selects leaf rec.selector part
  pub same : Digests crypto part rec.matching_type rec.payload

source_of-Selects :
    (selector : ℕ) (leaf : Certificate) (part : Bytes)
    → source_of selector leaf ≡ some part
    → Selects leaf selector part
source_of-Selects selector leaf part h = elim (Bool-cases (selector == 0)) [
  | inl hit ↦ whole (ground arith) (ground arith)
  | inr miss ↦ elim (Bool-cases (selector == 1)) [
    | inl hit ↦ public_key (ground arith) (ground arith)
    | inr never ↦ absurd (ground arith)
  ]
]

Selects-source_of :
    (selector : ℕ) (leaf : Certificate) (part : Bytes)
    → Selects leaf selector part
    → source_of selector leaf ≡ some part
Selects-source_of selector leaf part (whole n e) = ground arith
Selects-source_of selector leaf part (public_key n e) = ground arith

digest_of-Digests :
    (crypto : Crypto) (matching_type : ℕ) (source digest : Bytes)
    → digest_of crypto matching_type source ≡ some digest
    → Digests crypto source matching_type digest
digest_of-Digests crypto matching_type source digest h = elim (Bool-cases (matching_type == 0)) [
  | inl hit ↦ exact (ground arith) (ground arith)
  | inr miss ↦ elim (Bool-cases (matching_type == 1)) [
    | inl hit ↦ by_sha256 (ground arith) (ground arith)
    | inr not_one ↦ elim (Bool-cases (matching_type == 2)) [
      | inl hit ↦ by_sha512 (ground arith) (ground arith)
      | inr never ↦ absurd (ground arith)
    ]
  ]
]

Digests-digest_of :
    (crypto : Crypto) (matching_type : ℕ) (source digest : Bytes)
    → Digests crypto source matching_type digest
    → digest_of crypto matching_type source ≡ some digest
Digests-digest_of crypto matching_type source digest (exact n e) = ground arith
Digests-digest_of crypto matching_type source digest (by_sha256 n e) = ground arith
Digests-digest_of crypto matching_type source digest (by_sha512 n e) = ground arith

equals-some : (o : Option Bytes) (b : Bytes) → (equals o b ≡ true) ↔ (o ≡ some b)
equals-some none b = ground arith
equals-some (some a) b = ground (arith, bytes_equal_iff a b)

digested-Digests :
    (crypto : Crypto) (matching_type : ℕ) (o : Option Bytes) (digest : Bytes)
    → digested crypto matching_type o ≡ some digest
    → (source : Bytes) × (o ≡ some source) × Digests crypto source matching_type digest
digested-Digests crypto n none digest h = cc
digested-Digests crypto n (some source) digest h =
    (source, refl, digest_of-Digests crypto n source digest h)

matches-IsMatch :
    (crypto : Crypto) (leaf : Certificate) (rec : TlsaRecord)
    → matches crypto leaf rec ≡ true
    → IsMatch crypto leaf rec
unfolding matches
matches-IsMatch crypto leaf rec h =
    let (part, selected, same) =
      digested-Digests crypto rec.matching_type (source_of rec.selector leaf) rec.payload
        ((equals-some _ rec.payload).0 h) in
    record {
      part = part;
      selected = source_of-Selects rec.selector leaf part selected;
      same = same;
    }

IsMatch-matches :
    (crypto : Crypto) (leaf : Certificate) (rec : TlsaRecord)
    → IsMatch crypto leaf rec
    → matches crypto leaf rec ≡ true
unfolding matches
IsMatch-matches crypto leaf rec m = rw (Selects-source_of rec.selector leaf m.part m.selected) (
    (equals-some _ rec.payload).1
      (Digests-digest_of crypto rec.matching_type m.part rec.payload m.same))

-- The first record that matches the leaf of a chain.
pub record IsFirst (crypto : Crypto) (leaf : Certificate) (records : List TlsaRecord) (i : ℕ)
    : Type 0 where
  pub found : TlsaRecord
  pub here : get_elem? records i ≡ some found
  pub matching : IsMatch crypto leaf found
  pub first : All (λ rec. ¬ IsMatch crypto leaf rec) (take i records)

next_index-some : (o : Option ℕ) (i : ℕ) → next_index o ≡ some (suc i) → o ≡ some i
next_index-some none i h = cc
next_index-some (some j) i h = ground arith

next_index-zero : (o : Option ℕ) → next_index o ≢ some 0
next_index-zero none = λ h. cc
next_index-zero (some j) = λ h. ground arith

first_match-IsFirst :
    (crypto : Crypto) (leaf : Certificate) (records : List TlsaRecord) (i : ℕ)
    → first_match crypto leaf records ≡ some i
    → IsFirst crypto leaf records i
unfolding first_match
first_match-IsFirst crypto leaf [] i h = cc
first_match-IsFirst crypto leaf (rec ∷ records) zero h =
    elim (Bool-cases (matches crypto leaf rec)) [
      | inl hit ↦ record {
        found = rec;
        here = refl;
        matching = matches-IsMatch crypto leaf rec hit;
        first = tt;
      }
      | inr miss ↦ absurd (next_index-zero (first_match crypto leaf records) (rw miss at h))
    ]
first_match-IsFirst crypto leaf (rec ∷ records) (suc i) h =
    elim (Bool-cases (matches crypto leaf rec)) [
      | inl hit ↦ absurd (ground arith)
      | inr miss ↦
          let later =
            first_match-IsFirst crypto leaf records i
              (next_index-some (first_match crypto leaf records) i (rw miss at h)) in
          record {
            found = later.found;
            here = later.here;
            matching = later.matching;
            first = ((λ m. let hit = IsMatch-matches crypto leaf rec m in cc), later.first);
          }
    ]

IsFirst-first_match :
    (crypto : Crypto) (leaf : Certificate) (records : List TlsaRecord) (i : ℕ)
    → IsFirst crypto leaf records i
    → first_match crypto leaf records ≡ some i
unfolding first_match
IsFirst-first_match crypto leaf [] i f = let e = f.here in cc
IsFirst-first_match crypto leaf (rec ∷ records) zero f =
    let here = f.here in
    let same : f.found ≡ rec = cc in
    let hit = IsMatch-matches crypto leaf rec (subst (IsMatch crypto leaf) same f.matching) in
    rw hit
IsFirst-first_match crypto leaf (rec ∷ records) (suc i) f =
    elim (Bool-cases (matches crypto leaf rec)) [
      | inl hit ↦ absurd (f.first.0 (matches-IsMatch crypto leaf rec hit))
      | inr miss ↦
          let later =
            IsFirst-first_match crypto leaf records i (record {
              found = f.found;
              here = f.here;
              matching = f.matching;
              first = f.first.1;
            }) in
          rw (miss, later)
    ]

-- The chain has a leaf, and the record at an index is the first that matches it.
abbrev pub HasFirst : Crypto → List TlsaRecord → List Certificate → ℕ → Type 0
HasFirst crypto records chain i =
    (leaf : Certificate) × (rest : List Certificate) × (chain ≡ leaf ∷ rest)
    × IsFirst crypto leaf records i

-- `matchTLSA` returns an index exactly where the chain is not empty, the record there holds the
-- exact bytes or the hash, as its matching type says, of the part of the leaf that its selector
-- names, and no record before it does.
pub match_tlsa_iff :
    (crypto : Crypto) (records : List TlsaRecord) (chain : List Certificate) (i : ℕ)
    → (match_tlsa crypto records chain ≡ some i) ↔ HasFirst crypto records chain i
unfolding match_tlsa
match_tlsa_iff crypto records [] i = ((λ h. absurd cc), λ (leaf, rest, e, f). absurd cc)
match_tlsa_iff crypto records (leaf ∷ rest) i = (
  (λ h. (leaf, rest, refl, first_match-IsFirst crypto leaf records i h)),
  λ (leaf', rest', e, f).
      let same : leaf' ≡ leaf = cc in
      IsFirst-first_match crypto leaf records i (subst (λ l. IsFirst crypto l records i) same f),
)
