-- ===== src/MtaSts/Document.antt =====
-- internal/probe/mtasts/mtasts.go: `parsePolicy`.
use mailsec_probe.Common.{if◌then◌else◌, ◌*◌, ◌||◌, Option, none, some, List, [], ◌∷◌, ◌++◌}
use mailsec_probe.Scanner.{scan_lines}
use mailsec_probe.Text.{Bytes, codes, str_eq, is_empty, trim_space, to_lower, has_prefix, cut}

pub record Policy : Type 0 where
  pub version : Bytes
  pub mode : Bytes
  pub mx : List Bytes
  pub max_age : Bytes
  pub raw : Bytes

abbrev pub no_policy : Policy
no_policy = record { version = []; mode = []; mx = []; max_age = []; raw = [] }

-- The switch on the key of a line.
abbrev set_key : Policy → Bytes → Bytes → Policy
set_key p key value =
    if str_eq key (codes "version")
    then record p { version = value }
    else if str_eq key (codes "mode")
    then record p { mode = to_lower value }
    else if str_eq key (codes "max_age")
    then record p { max_age = value }
    else if str_eq key (codes "mx")
    then record p { mx = p.mx ++ value ∷ [] }
    else p

abbrev set_pair : Policy → Option (Bytes × Bytes) → Policy
set_pair p none = p
set_pair p (some (key, value)) = set_key p (trim_space (to_lower key)) (trim_space value)

unfoldable pub parse_line : Policy → Bytes → Policy
unfolding trim_space has_prefix str_eq to_lower cut
parse_line p text =
    let line = trim_space text in
    if is_empty line || has_prefix line (codes "#") then p else set_pair p (cut line b':')

unfoldable pub parse_lines : Policy → List Bytes → Policy
unfolding parse_line
parse_lines p [] = p
parse_lines p (line ∷ lines) = parse_lines (parse_line p line) lines

-- The error of the scanner is not looked at: a line too long ends the policy.
unfoldable pub parse_policy : Bytes → Policy
unfolding parse_lines scan_lines
parse_policy body = parse_lines no_policy (scan_lines (1024 * 1024) body).0

-- Step 1: the marker, as the id and the raw text for the details.
