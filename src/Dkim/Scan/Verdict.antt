-- ===== src/Dkim/Scan/Verdict.antt =====
-- `runOne` of internal/probe/dkim/dkim.go, for every answer of the DNS.
use mailsec_probe.Common.{
  ◌≡◌, refl, ◌≢◌, inl, inr, Bool, some, List, [], ◌∷◌, ◌↔◌, map, arith, All, Option-cases, Some,
  subst, Option, none, ◌++◌,
}
use mailsec_probe.Dkim.Key.{Key}
use mailsec_probe.Dkim.Scan.{
  Lookup, hit_of, found_keys, live_selectors, Details, Probe, run_one, look_up, decide, merged,
  inferred_by, judge, details_of, on_answer,
}
use mailsec_probe.Outcome.{returned}
use mailsec_probe.Text.{Bytes, codes}
use mailsec_probe.TxtTag.{Pair, get}
use mathlib.Core.List.{cons-ne-nil}
use mailsec_probe.Dkim.Key.Revoked.{IsReadable, parse_key-returns}
use mailsec_probe.Signals.{present, Signal, Feature}
use mailsec_probe.Dkim.Scan.Live.{
  HasLive, live_iff, IsLive, hit_of-IsLive, IsLive-hit_of, HasLive-map,
}
use mailsec_probe.Dkim.Scan.Candidates.{IsCandidate, Some-witness, witness-Some, merged_iff}
use mailsec_probe.Dkim.Scan.KeyRecord.{IsKeyRecord, find_key_iff}
use mailsec_probe.DnsClient.{TxtResult, Client}

-- The lookups of a run.
abbrev lookups : Probe → Bytes → List Lookup
lookups p domain = map (look_up p.dns domain) (merged p.selectors (inferred_by p domain))

decide-present :
    (results : List Lookup) (d : Details) (sigs : List Signal)
    → ((decide results d sigs).status ≡ present) ↔ (live_selectors d.keys ≢ [])
unfolding decide
decide-present results d sigs = go (live_selectors d.keys) refl
  where
    go :
        (live : List Bytes)
        → live_selectors d.keys ≡ live
        → ((decide results d sigs).status ≡ present) ↔ (live_selectors d.keys ≢ [])
    go [] e = rw e ((λ h. absurd (ground arith)), λ ne. absurd (ne refl))
    go (x ∷ live) e = rw e ((λ _. cons-ne-nil x live), λ _. ground arith)

-- Every key record that a lookup found can be read without a panic.
abbrev IsSafe : Lookup → Type 0
IsSafe r = (raw : Bytes) (pairs : List Pair) → hit_of r ≡ some (raw, pairs) → IsReadable pairs

found_keys-returns :
    (include_raw : Bool) (results : List Lookup)
    → All IsSafe results
    → (keys : List Key) × (found_keys include_raw results ≡ returned keys)
unfolding found_keys
found_keys-returns include_raw [] h = ([], refl)
found_keys-returns include_raw (r ∷ results) h =
    let (ks, e) = found_keys-returns include_raw results h.1 in
    elim (Option-cases (hit_of r)) [
      | inl miss ↦ (ks, rw (miss, e))
      | inr ((raw, pairs), hit) ↦
          let (k, parsed) =
            parse_key-returns r.selector raw pairs include_raw (h.0 raw pairs hit) in
          (k ∷ ks, rw (hit, parsed, e))
    ]

-- The TXT records at the name of the selector hold this key record.
abbrev pub KeyAt : Client → Bytes → Bytes → Bytes → List Pair → Type 0
KeyAt dns domain sel raw pairs =
    (res : TxtResult) × (dns.lookup_txt (sel ++ (codes "._domainkey." ++ domain)) ≡ (res, none))
    × IsKeyRecord res.records raw pairs

pub hit_of-KeyAt :
    (dns : Client) (domain sel raw : Bytes) (pairs : List Pair)
    → (hit_of (look_up dns domain sel) ≡ some (raw, pairs)) ↔ KeyAt dns domain sel raw pairs
unfolding look_up
hit_of-KeyAt dns domain sel raw pairs = go (dns.lookup_txt target) refl
  where
    target : Bytes
    target = sel ++ (codes "._domainkey." ++ domain)

    go :
        (answer : TxtResult × Option Bytes)
        → dns.lookup_txt target ≡ answer
        → (hit_of (on_answer sel target (dns.lookup_txt target)) ≡ some (raw, pairs))
          ↔ KeyAt dns domain sel raw pairs
    go (res, some e) h = rw h ((λ g. cc), λ (r, answered, _). absurd (cc answered))
    go (res, none) h =
        let law = find_key_iff res.records raw pairs in
        rw h (
          (λ g. (res, refl, law.0 g)),
          λ (r, answered, k).
              let same : r.records ≡ res.records = cc answered in
              law.1 (subst (λ rs. IsKeyRecord rs raw pairs) same k),
        )

-- A selector of the run has a key record with a public part.
abbrev pub HasKey : Probe → Bytes → Type 0
HasKey p domain =
    (sel : Bytes) × IsCandidate p domain sel
    × ((raw : Bytes) × (pairs : List Pair) × KeyAt p.dns domain sel raw pairs
        × (get pairs (codes "p") ≢ []))

HasLive-HasKey : (p : Probe) (domain : Bytes) → HasLive (lookups p domain) ↔ HasKey p domain
HasLive-HasKey p domain =
    let sels = merged p.selectors (inferred_by p domain) in
    let live = HasLive-map (look_up p.dns domain) sels in
    (
      (λ h.
          let (sel, there, l) = Some-witness sels (live.0 h) in
          (
            sel,
            (merged_iff p domain sel).0 there,
            (
              l.raw,
              l.pairs,
              (hit_of-KeyAt p.dns domain sel l.raw l.pairs).0
                  (IsLive-hit_of (look_up p.dns domain sel) l),
              l.key,
            ),
          )),
      λ (sel, candidate, (raw, pairs, key, part)). live.1 (
          witness-Some (λ x. IsLive (look_up p.dns domain x)) sels sel
            ((merged_iff p domain sel).1 candidate)
            (hit_of-IsLive (look_up p.dns domain sel)
              ((hit_of-KeyAt p.dns domain sel raw pairs).1 key) part)),
    )

-- Every key record of a selector of the run can be read without a panic.
abbrev pub AllReadable : Probe → Bytes → Type 0
AllReadable p domain =
    (sel raw : Bytes) (pairs : List Pair)
    → IsCandidate p domain sel
    → KeyAt p.dns domain sel raw pairs
    → IsReadable pairs

All-lookups :
    (p : Probe) (domain : Bytes) (sels : List Bytes)
    → ((sel : Bytes) → Some (λ x. x ≡ sel) sels → IsSafe (look_up p.dns domain sel))
    → All IsSafe (map (look_up p.dns domain) sels)
All-lookups p domain [] h = tt
All-lookups p domain (sel ∷ sels) h =
    (h sel (inl refl), All-lookups p domain sels (λ t there. h t (inr there)))

AllReadable-IsSafe :
    (p : Probe) (domain : Bytes) → AllReadable p domain → All IsSafe (lookups p domain)
AllReadable-IsSafe p domain readable =
    All-lookups p domain (merged p.selectors (inferred_by p domain)) (λ sel there raw pairs h.
      readable sel raw pairs ((merged_iff p domain sel).0 there)
        ((hit_of-KeyAt p.dns domain sel raw pairs).0 h))

-- A selector of the run is one of those configured, as it stands, where the SPF record of the domain
-- suggests none or the inference is off, and else one of those configured or suggested, trimmed. The
-- first SPF record suggests what the rules add that look for a part of a domain it includes or
-- redirects to. If the public part of every key record at "<selector>._domainkey.<domain>" decodes,
-- where it is base64, to at most 2 ^ 60 bytes, none of which is a 2 before a byte of 0x88 or more, then
-- the run returns, and DKIM is reported present exactly when some selector of the run has a key record
-- with a public part. The key record is the first TXT record that declares "DKIM1" and, without one,
-- the first with a tag "p" or "k".
pub run_one-HasLive :
    (p : Probe) (domain : Bytes)
    → AllReadable p domain
    → (f : Feature Details) × (run_one p domain ≡ returned f)
      × ((f.status ≡ present) ↔ HasKey p domain)
unfolding run_one
run_one-HasLive p domain readable =
    let results = lookups p domain in
    let inferred = inferred_by p domain in
    let safe = AllReadable-IsSafe p domain readable in
    let (keys, found) = found_keys-returns p.include_raw results safe in
    let live = live_iff p.include_raw results found in
    let key = HasLive-HasKey p domain in
    let d = details_of results inferred keys in
    let verdict = decide-present results d (map (λ r. r.sig) results) in
    (
      judge results inferred keys,
      rw found,
      ((λ g. key.0 (live.0 (verdict.0 g))), λ g. verdict.1 (live.1 (key.1 g))),
    )
