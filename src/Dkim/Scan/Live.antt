-- ===== src/Dkim/Scan/Live.antt =====
-- The lookups of `runOne` of internal/probe/dkim/dkim.go that are live, and the keys it finds in them.
use mailsec_probe.Common.{
  Bool-cases, ◌≡◌, refl, ◌≢◌, inl, inr, Bool, true, false, some, List, [], ◌∷◌, ◌++◌, ap, ◌↔◌, ◌⊎◌,
  Option, none, sym, ◌∙◌, Some, map,
}
use mailsec_probe.Dkim.Key.{Key, parse_key}
use mailsec_probe.Dkim.Scan.{Lookup, hit_of, key_of, found_keys, live_selectors}
use mailsec_probe.Outcome.{Outcome, returned, >>=-eq-returned}
use mailsec_probe.Text.{Bytes, codes, is_empty}
use mailsec_probe.TxtTag.{Pair, get}
use mathlib.Core.List.{cons-ne-nil}
use mailsec_probe.Dkim.Key.Revoked.{parse_key-revoked}

-- A lookup that found a key with a public part.
pub record IsLive (r : Lookup) : Type 0 where
  pub answered : r.sig.ok ≡ true
  pub raw : Bytes
  pub pairs : List Pair
  pub hit : r.hit ≡ some (raw, pairs)
  pub key : get pairs (codes "p") ≢ []

pub record HasLive (results : List Lookup) : Type 0 where
  pub before : List Lookup
  pub one : Lookup
  pub after : List Lookup
  pub splits : results ≡ before ++ one ∷ after
  pub live : IsLive one

pub is_empty-false_iff : (s : Bytes) → (is_empty s ≡ false) ↔ (s ≢ [])
is_empty-false_iff [] = ((λ h. cc), λ ne. absurd (ne refl))
is_empty-false_iff (c ∷ s) = ((λ _. cons-ne-nil c s), λ _. refl)

pub is_empty-true : (s : Bytes) → is_empty s ≡ true → s ≡ []
is_empty-true [] h = refl
is_empty-true (c ∷ s) h = cc

HasLive-cons : {results : List Lookup} (r : Lookup) → HasLive results → HasLive (r ∷ results)
HasLive-cons r h = record {
  before = r ∷ h.before;
  one = h.one;
  after = h.after;
  splits = ap (◌∷◌ r) h.splits;
  live = h.live;
}

HasLive-head : {results : List Lookup} (r : Lookup) → IsLive r → HasLive (r ∷ results)
HasLive-head {results} r l = record {
  before = [];
  one = r;
  after = results;
  splits = refl;
  live = l;
}

HasLive-inv :
    (r : Lookup) (results : List Lookup) → HasLive (r ∷ results) → IsLive r ⊎ HasLive results
HasLive-inv r results h = go h.before h.splits
  where
    go :
        (before : List Lookup)
        → r ∷ results ≡ before ++ h.one ∷ h.after
        → IsLive r ⊎ HasLive results
    go [] e = let same : r ≡ h.one = cc in inl (rw same h.live)
    go (x ∷ before) e =
        inr (record { before = before; one = h.one; after = h.after; splits = cc; live = h.live })

pub hit_of-IsLive :
    (r : Lookup) {raw : Bytes} {pairs : List Pair}
    → hit_of r ≡ some (raw, pairs)
    → get pairs (codes "p") ≢ []
    → IsLive r
hit_of-IsLive r {raw} {pairs} h ne = elim (Bool-cases r.sig.ok) [
  | inl good ↦ record { answered = good; raw = raw; pairs = pairs; hit = rw good at h; key = ne }
  | inr bad ↦ cc (rw bad at h)
]

pub IsLive-hit_of : (r : Lookup) (l : IsLive r) → hit_of r ≡ some (l.raw, l.pairs)
IsLive-hit_of r l = rw l.answered l.hit

-- What one result adds to the keys.
key_of-inv :
    (include_raw : Bool) (r : Lookup) (rest : Outcome (List Key)) {keys : List Key}
    → key_of include_raw r.selector (hit_of r) rest ≡ returned keys
    → ((hit_of r ≡ none) × (rest ≡ returned keys))
      ⊎ ((raw : Bytes) × (pairs : List Pair) × (k : Key) × (ks : List Key) × (hit_of r
            ≡ some (raw, pairs))
          × (parse_key r.selector raw pairs include_raw ≡ returned k)
          × (rest ≡ returned ks)
          × (keys ≡ k ∷ ks))
key_of-inv include_raw r rest {keys} h = go (hit_of r) refl h
  where
    go :
        (o : Option (Bytes × List Pair))
        → hit_of r ≡ o
        → key_of include_raw r.selector o rest ≡ returned keys
        → ((hit_of r ≡ none) × (rest ≡ returned keys))
          ⊎ ((raw : Bytes) × (pairs : List Pair) × (k : Key) × (ks : List Key) × (hit_of r
                ≡ some (raw, pairs))
              × (parse_key r.selector raw pairs include_raw ≡ returned k)
              × (rest ≡ returned ks)
              × (keys ≡ k ∷ ks))
    go none e g = inl (e, g)
    go (some (raw, pairs)) e g =
        let (k, parsed, later) = >>=-eq-returned (parse_key r.selector raw pairs include_raw) _ g in
        let (ks, others, last) = >>=-eq-returned rest _ later in
        inr (raw, pairs, k, ks, e, parsed, others, cc)

HasLive-nil : ¬ HasLive []
HasLive-nil h = go h.before h.splits
  where
    go : (before : List Lookup) → [] ≡ before ++ h.one ∷ h.after → ⊥
    go [] e = cc
    go (x ∷ before) e = cc

pub dead :
    (r : Lookup) {raw : Bytes} {pairs : List Pair}
    → hit_of r ≡ some (raw, pairs)
    → get pairs (codes "p") ≡ []
    → ¬ IsLive r
dead r {raw} {pairs} hit e l =
    let same : some (l.raw, l.pairs) ≡ some (raw, pairs) = sym (IsLive-hit_of r l) ∙ hit in
    let pairs_same : l.pairs ≡ pairs = cc in l.key (rw pairs_same e)

-- There is a key that is not revoked exactly when some lookup is live.
pub live_iff :
    (include_raw : Bool) (results : List Lookup) {keys : List Key}
    → found_keys include_raw results ≡ returned keys
    → (live_selectors keys ≢ []) ↔ HasLive results
unfolding found_keys live_selectors
live_iff include_raw [] {keys} h =
    let e : keys ≡ [] = cc in rw e ((λ ne. absurd (ne refl)), λ l. absurd (HasLive-nil l))
live_iff include_raw (r ∷ results) {keys} h =
    elim (key_of-inv include_raw r (found_keys include_raw results) h) [
      | inl (miss, rest) ↦
          let ih = live_iff include_raw results rest in
          (
            (λ ne. HasLive-cons r (ih.0 ne)),
            λ l. elim (HasLive-inv r results l) [
              | inl here ↦ cc (miss, IsLive-hit_of r here)
              | inr later ↦ ih.1 later
            ],
          )
      | inr (raw, pairs, k, ks, hit, parsed, rest, e) ↦
          let ih = live_iff include_raw results rest in
          let revoked = parse_key-revoked r.selector raw pairs include_raw parsed in
          elim (Bool-cases (is_empty (get pairs (codes "p")))) [
            | inl bare ↦
                rw (e, revoked, bare)
                  (
                    (λ ne. HasLive-cons r (ih.0 ne)),
                    λ l. elim (HasLive-inv r results l) [
                      | inl here ↦
                          absurd (dead r hit (is_empty-true (get pairs (codes "p")) bare) here)
                      | inr later ↦ ih.1 later
                    ],
                  )
            | inr full ↦
                rw (e, revoked, full)
                  (
                    (λ _. HasLive-head r (
                        hit_of-IsLive r hit ((is_empty-false_iff (get pairs (codes "p"))).0 full))),
                    λ _. cons-ne-nil k.selector (live_selectors ks),
                  )
          ]
    ]

-- The lookups of a list of selectors.
pub HasLive-map :
    (f : Bytes → Lookup) (sels : List Bytes)
    → HasLive (map f sels) ↔ Some (λ sel. IsLive (f sel)) sels
HasLive-map f [] = ((λ h. HasLive-nil h), λ s. absurd s)
HasLive-map f (sel ∷ sels) =
    let rest = HasLive-map f sels in
    (
      (λ h. elim (HasLive-inv (f sel) (map f sels) h) [
        | inl here ↦ inl here
        | inr later ↦ inr (rest.0 later)
      ]),
      λ s. elim s [
        | inl here ↦ HasLive-head (f sel) here
        | inr later ↦ HasLive-cons (f sel) (rest.1 later)
      ],
    )
