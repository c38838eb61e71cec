-- ===== src/Cli/Domains.antt =====
-- `mergeDomains` of internal/cli/input.go.
use mailsec_probe.Cli.{normal_domain, merge_domains}
use mailsec_probe.Dedupe.{mem}
use mailsec_probe.Dedupe.Laws.{Distinct, mem-dedupe_by, dedupe_by-Distinct}
use mailsec_probe.Text.{Bytes, is_empty}
use mailsec_probe.Common.{◌≡◌, refl, ap, ◌∙◌, not, ◌&&◌, ◌||◌, List, [], ◌∷◌, ◌++◌, map, arith}

-- What is known of the domains: none is empty, none stands twice, each is the lower-case, trimmed
-- form of an argument or of a line, and each such form is there.
pub record IsMerged (a b domains : List Bytes) : Type 0 where
  pub distinct : Distinct domains
  pub same :
      (d : Bytes)
      → mem d domains
        ≡ (not (is_empty d) && (mem d (map normal_domain a) || mem d (map normal_domain b)))

map-append_norm :
    (a b : List Bytes) → map normal_domain (a ++ b) ≡ map normal_domain a ++ map normal_domain b
map-append_norm [] b = refl
map-append_norm (x ∷ a) b = ap (◌∷◌ (normal_domain x)) (map-append_norm a b)

mem-append_or : (d : Bytes) (xs ys : List Bytes) → mem d (xs ++ ys) ≡ (mem d xs || mem d ys)
unfolding mem
mem-append_or d [] ys = refl
mem-append_or d (x ∷ xs) ys = ground (arith, mem-append_or d xs ys)

-- `mergeDomains` returns the arguments and the lines of the file in lower case and without white
-- space around them: each once, and no empty one.
pub merge_domains-IsMerged : (a b : List Bytes) → IsMerged a b (merge_domains a b)
unfolding merge_domains
merge_domains-IsMerged a b = record {
  distinct = dedupe_by-Distinct normal_domain (a ++ b);
  same = λ d.
      mem-dedupe_by normal_domain d (a ++ b)
      ∙ rw (map-append_norm a b, mem-append_or d (map normal_domain a) (map normal_domain b));
}
