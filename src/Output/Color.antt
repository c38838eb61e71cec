-- ===== src/Output/Color.antt =====
-- internal/output/color.go: the ANSI escapes around a text. The environment variable NO_COLOR and the
-- test for a terminal are arguments.
pub mod Strip
pub mod Shown
use mailsec_probe.Common.{if◌then◌else◌, Bool, true, false, not, [], ◌∷◌, ◌++◌}
use mailsec_probe.Signals.{Status, present, absent, unknown, misconfigured, skipped, status_text}
use mailsec_probe.Text.{Bytes, codes, str_eq}

pub record Colorizer : Type 0 where
  pub enabled : Bool

-- `NewColorizer`: `no_color` says that NO_COLOR is set, and `terminal` is what `isTerminal` returns.
unfoldable pub new_colorizer : Bytes → Bool → Bool → Colorizer
unfolding str_eq
new_colorizer mode no_color terminal =
    if str_eq mode (codes "always")
    then record { enabled = true }
    else if str_eq mode (codes "never")
    then record { enabled = false }
    else if no_color
    then record { enabled = false }
    else record { enabled = terminal }

-- ESC, a bracket, the parameters and `m`.
abbrev escape : Bytes → Bytes
escape parameters = 27 ∷ b'[' ∷ (parameters ++ b'm' ∷ [])

abbrev ansi_reset : Bytes
ansi_reset = escape (codes "0")

abbrev ansi_bold : Bytes
ansi_bold = escape (codes "1")

abbrev ansi_green : Bytes
ansi_green = escape (codes "32")

abbrev ansi_yellow : Bytes
ansi_yellow = escape (codes "33")

abbrev ansi_red : Bytes
ansi_red = escape (codes "31")

abbrev ansi_gray : Bytes
ansi_gray = escape (codes "90")

abbrev by_status : Status → Bytes → Bytes
by_status present text = ansi_green ++ (ansi_bold ++ (text ++ ansi_reset))
by_status misconfigured text = ansi_yellow ++ (ansi_bold ++ (text ++ ansi_reset))
by_status unknown text = ansi_red ++ (ansi_bold ++ (text ++ ansi_reset))
by_status absent text = ansi_gray ++ (text ++ ansi_reset)
by_status skipped text = ansi_gray ++ (text ++ ansi_reset)

unfoldable pub color_by_status : Colorizer → Status → Bytes → Bytes
color_by_status c s text = if not c.enabled then text else by_status s text

-- `Status`.
abbrev pub color_status : Colorizer → Status → Bytes
color_status c s = color_by_status c s (status_text s)

unfoldable pub dim : Colorizer → Bytes → Bytes
dim c s = if not c.enabled then s else ansi_gray ++ (s ++ ansi_reset)
