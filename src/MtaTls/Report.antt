-- ===== src/MtaTls/Report.antt =====
-- internal/probe/mtatls/mtatls.go: the details of the features "starttls" and "dane", and their
-- summaries.
use mailsec_probe.Common.{
  length, sum_by, ltb, ◌==◌, if◌then◌else◌, ℕ, Bool, ◌&&◌, List, [], ◌∷◌, ◌++◌,
}
use mailsec_probe.Dedupe.{dedupe_by}
use mailsec_probe.Sort.{sort_strings}
use mailsec_probe.Text.{Bytes, codes, join, decimal}

pub record MxSummary : Type 0 where
  pub host : Bytes
  pub starttls_advertised : Bool
  pub starttls_accepted : Bool
  pub tls_version : Bytes
  pub leaf_subject : Bytes
  pub leaf_issuer : Bytes
  pub leaf_sans : List Bytes
  pub not_before : Bytes
  pub not_after : Bytes
  pub pkix_valid : Bool
  pub pkix_err : Bytes
  pub connect_err : Bytes
  pub tls_err : Bytes
  pub duration_ms : ℕ

pub record TlsaEntry : Type 0 where
  pub usage : ℕ
  pub selector : ℕ
  pub matching_type : ℕ

pub record DaneMxResult : Type 0 where
  pub host : Bytes
  pub target : Bytes
  pub num_records : ℕ
  pub matched : Bool
  pub matched_rr : Bytes
  pub records : List TlsaEntry
  pub lookup_err : Bytes

-- The details of one feature or the other.
pub data Details : Type 0 where
  starttls_details : List MxSummary → Details
  dane_details : List DaneMxResult → Details

-- The counts of the two summaries.
abbrev one_if : Bool → ℕ
one_if b = if b then 1 else 0

abbrev is_pkix : MxSummary → Bool
is_pkix r = r.starttls_accepted && r.pkix_valid

unfoldable pub accepted_versions : List MxSummary → List Bytes
accepted_versions [] = []
accepted_versions (r ∷ rs) =
    let rest = accepted_versions rs in if r.starttls_accepted then r.tls_version ∷ rest else rest

-- The set `versions`, sorted: no empty text, and none twice.
abbrev version_list : List MxSummary → List Bytes
version_list rs = sort_strings (dedupe_by (λ v. v) (accepted_versions rs))

abbrev ratio : ℕ → ℕ → Bytes
ratio a b = decimal a ++ (codes "/" ++ decimal b)

unfoldable pub starttls_summary : List MxSummary → Bytes
unfolding decimal dedupe_by sort_strings accepted_versions join
starttls_summary [] = codes "no MX"
starttls_summary (r ∷ rs) =
    let accepted = sum_by (λ s. one_if s.starttls_accepted) (r ∷ rs) in
    let pkix = sum_by (λ s. one_if (is_pkix s)) (r ∷ rs) in
    ratio accepted (length (r ∷ rs))
    ++ (codes " MX STARTTLS, "
        ++ (ratio pkix accepted
            ++ (codes " PKIX-valid (" ++ (join (version_list (r ∷ rs)) (codes "/") ++ codes ")"))))

abbrev has_tlsa : DaneMxResult → Bool
has_tlsa r = ltb 0 r.num_records

-- Empty where no host has TLSA records.
unfoldable pub dane_summary : List DaneMxResult → Bytes
unfolding decimal
dane_summary [] = []
dane_summary (r ∷ rs) =
    let published = sum_by (λ s. one_if (has_tlsa s)) (r ∷ rs) in
    let matched = sum_by (λ s. one_if (has_tlsa s && s.matched)) (r ∷ rs) in
    if published == 0
    then []
    else ratio published (length (r ∷ rs))
      ++ (codes " MX have TLSA, " ++ (ratio matched published ++ codes " validate"))
