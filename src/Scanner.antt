-- ===== src/Scanner.antt =====
-- `bufio.Scanner` with the split function `ScanLines`, over a text that is read whole. The flag of
-- the result says that the scan stopped, with `ErrTooLong`, before a line that does not fit in the
-- buffer: one of `limit` bytes or more.
-- A line is returned without its newline and without one carriage return before it.
use mailsec_probe.Common.{length, leb, if◌then◌else◌, ℕ, Bool, true, false, List, [], ◌∷◌}
use mailsec_probe.Text.{Bytes, is_empty, trim_suffix, split}

abbrev drop_cr : Bytes → Bytes
drop_cr line = trim_suffix line (b'\r' ∷ [])

abbrev scan_one : ℕ → Bytes → List Bytes × Bool → List Bytes × Bool
scan_one limit part (lines, stopped) =
    if leb limit (length part) then ([], true) else (drop_cr part ∷ lines, stopped)

-- The text behind the last newline is a line only if it is not empty.
scan_parts : ℕ → List Bytes → List Bytes × Bool
scan_parts limit [] = ([], false)
scan_parts limit (part ∷ []) =
    if is_empty part then ([], false) else scan_one limit part ([], false)
scan_parts limit (part ∷ next ∷ parts) = scan_one limit part (scan_parts limit (next ∷ parts))

unfoldable pub scan_lines : ℕ → Bytes → List Bytes × Bool
unfolding scan_parts split trim_suffix
scan_lines limit text = scan_parts limit (split text b'\n')
