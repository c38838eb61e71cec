-- ===== src/MtaSts/Hosts.antt =====
-- internal/probe/mtasts/mtasts.go: `compareMXAgainstPolicy` with its patterns.
use mailsec_probe.Common.{
  length, take, drop, if◌then◌else◌, ◌-◌, Bool, true, false, not, ◌&&◌, List, [], ◌∷◌, ◌++◌, map,
}
use mailsec_probe.Text.{
  Bytes, codes, str_eq, is_empty, to_lower, has_prefix, has_suffix, contains, trim_suffix,
}

pub record MxMatch : Type 0 where
  pub checked : Bool
  pub all_matched : Bool
  pub hosts : List Bytes
  pub unmatched : List Bytes
  pub policy_patterns : List Bytes

unfoldable pub match_pattern : Bytes → Bytes → Bool
unfolding str_eq has_prefix has_suffix contains
match_pattern host pattern =
    let suffix = drop 2 pattern in
    let label = take (length host - length suffix - 1) host in
    if str_eq host pattern
    then true
    else if not (has_prefix pattern (codes "*."))
    then false
    else if not (has_suffix host (codes "." ++ suffix))
    then false
    else not (is_empty label) && not (contains label (codes "."))

unfoldable pub match_any_pattern : Bytes → List Bytes → Bool
unfolding match_pattern
match_any_pattern host [] = false
match_any_pattern host (p ∷ patterns) =
    if match_pattern host p then true else match_any_pattern host patterns

-- `strings.TrimSuffix(strings.ToLower(s), ".")`.
unfoldable pub normalise : Bytes → Bytes
unfolding trim_suffix to_lower
normalise s = trim_suffix (to_lower s) (codes ".")

-- One round of the loop over the hosts.
abbrev pub compare_round : List Bytes → MxMatch → Bytes → MxMatch
compare_round patterns m h =
    if not (match_any_pattern (normalise h) patterns)
    then record m { unmatched = m.unmatched ++ h ∷ []; all_matched = false }
    else m

unfoldable pub compare_hosts : List Bytes → MxMatch → List Bytes → MxMatch
unfolding match_any_pattern normalise
compare_hosts patterns m [] = m
compare_hosts patterns m (h ∷ hosts) = compare_hosts patterns (compare_round patterns m h) hosts

abbrev pub fresh_match : List Bytes → List Bytes → MxMatch
fresh_match hosts patterns = record {
  checked = false;
  all_matched = true;
  hosts = hosts;
  unmatched = [];
  policy_patterns = patterns;
}

unfoldable pub compare_mx_against_policy : List Bytes → List Bytes → MxMatch
unfolding compare_hosts normalise
compare_mx_against_policy [] policy_patterns = fresh_match [] policy_patterns
compare_mx_against_policy (h ∷ hosts) policy_patterns =
    compare_hosts (map normalise policy_patterns) (fresh_match (h ∷ hosts) policy_patterns)
      (h ∷ hosts)
