-- ===== src/Spf/Terms.antt =====
-- `parseSPF` of internal/probe/spf/spf.go: the terms of a record and its qualifier.
use mailsec_probe.Common.{
  All, Bool-cases, ◌≡◌, refl, sym, ◌∙◌, inl, inr, false, List, [], ◌∷◌, ◌++◌, arith,
}
use mailsec_probe.Spf.{
  Qualifier, fail, softfail, neutral, pass, missing, Details, classify, parse_token, parse_tokens,
  parse_spf, no_details,
}
use mailsec_probe.Text.{Bytes, codes, str_eq, to_lower, equal_fold, fields}
use mailsec_probe.Text.Match.{str_eq_iff, str_eq_refl, equal_fold_iff}

-- The term is an "all" mechanism with qualifier `q`, in any letter case.
pub data IsAll (tok : Bytes) (q : Qualifier) : Type 0 where
  minus : to_lower tok ≡ codes "-all" → q ≡ fail → IsAll tok q
  tilde : to_lower tok ≡ codes "~all" → q ≡ softfail → IsAll tok q
  question : to_lower tok ≡ codes "?all" → q ≡ neutral → IsAll tok q
  plus : to_lower tok ≡ codes "+all" → q ≡ pass → IsAll tok q
  plain : to_lower tok ≡ codes "all" → q ≡ pass → IsAll tok q

abbrev pub NotAll : Bytes → Type 0
NotAll tok = (q : Qualifier) → ¬ IsAll tok q

not_version :
    (tok : Bytes) (l : Bytes)
    → to_lower tok ≡ l
    → str_eq l (to_lower (codes "v=spf1")) ≡ false
    → equal_fold tok (codes "v=spf1") ≡ false
not_version tok l e h = elim (Bool-cases (equal_fold tok (codes "v=spf1"))) [
  | inl same ↦
      let eq = sym e ∙ (equal_fold_iff tok (codes "v=spf1")).0 same in
      cc (rw eq at h, str_eq_refl (to_lower (codes "v=spf1")))
  | inr other ↦ other
]

parse_token-IsAll :
    (d : Details) (tok : Bytes) (q : Qualifier) → IsAll tok q → (parse_token d tok).qualifier ≡ q
unfolding parse_token
parse_token-IsAll d tok q (minus e k) =
    rw (not_version tok _ e (unfold str_eq to_lower in refl), e, k)
parse_token-IsAll d tok q (tilde e k) =
    rw (not_version tok _ e (unfold str_eq to_lower in refl), e, k)
parse_token-IsAll d tok q (question e k) =
    rw (not_version tok _ e (unfold str_eq to_lower in refl), e, k)
parse_token-IsAll d tok q (plus e k) =
    rw (not_version tok _ e (unfold str_eq to_lower in refl), e, k)
parse_token-IsAll d tok q (plain e k) =
    rw (not_version tok _ e (unfold str_eq to_lower in refl), e, k)

no_match :
    (tok l : Bytes) (q : Qualifier)
    → (to_lower tok ≡ l → IsAll tok q)
    → NotAll tok
    → str_eq (to_lower tok) l ≡ false
no_match tok l q rule n = elim (Bool-cases (str_eq (to_lower tok) l)) [
  | inl same ↦ absurd (n q (rule ((str_eq_iff (to_lower tok) l).0 same)))
  | inr other ↦ other
]

classify-NotAll :
    (d : Details) (tok : Bytes)
    → NotAll tok
    → (classify d tok (to_lower tok)).qualifier ≡ d.qualifier
unfolding classify
classify-NotAll d tok n =
    rw
      (
        no_match tok (codes "-all") fail (λ e. minus e refl) n,
        no_match tok (codes "~all") softfail (λ e. tilde e refl) n,
        no_match tok (codes "?all") neutral (λ e. question e refl) n,
        no_match tok (codes "+all") pass (λ e. plus e refl) n,
        no_match tok (codes "all") pass (λ e. plain e refl) n,
      )
      (ground arith)

parse_token-NotAll :
    (d : Details) (tok : Bytes) → NotAll tok → (parse_token d tok).qualifier ≡ d.qualifier
unfolding parse_token
parse_token-NotAll d tok n =
    ground (arith, classify-NotAll (record d { mechanisms = d.mechanisms ++ tok ∷ [] }) tok n)

parse_tokens-NotAll :
    (toks : List Bytes) (d : Details)
    → All NotAll toks
    → (parse_tokens d toks).qualifier ≡ d.qualifier
unfolding parse_tokens
parse_tokens-NotAll [] d h = refl
parse_tokens-NotAll (tok ∷ toks) d h =
    parse_tokens-NotAll toks (parse_token d tok) h.1 ∙ parse_token-NotAll d tok h.0

parse_tokens-append :
    (toks more : List Bytes) (d : Details)
    → parse_tokens d (toks ++ more) ≡ parse_tokens (parse_tokens d toks) more
unfolding parse_tokens
parse_tokens-append [] more d = refl
parse_tokens-append (tok ∷ toks) more d = parse_tokens-append toks more (parse_token d tok)

-- The qualifier of a record is that of its last "all", whatever stands before it and whatever
-- other terms follow.
pub parse_spf-last-All :
    (raw : Bytes) (before : List Bytes) (tok : Bytes) (after : List Bytes) (q : Qualifier)
    → fields raw ≡ before ++ tok ∷ after
    → IsAll tok q
    → All NotAll after
    → (parse_spf raw).qualifier ≡ q
unfolding parse_spf parse_tokens
parse_spf-last-All raw before tok after q e a n =
    rw (e, parse_tokens-append before (tok ∷ after))
      (parse_tokens-NotAll after _ n ∙ parse_token-IsAll _ tok q a)

-- A record with no "all" has the qualifier `missing`.
pub parse_spf-no-All : (raw : Bytes) → All NotAll (fields raw) → (parse_spf raw).qualifier ≡ missing
unfolding parse_spf
parse_spf-no-All raw n = parse_tokens-NotAll (fields raw) no_details n
