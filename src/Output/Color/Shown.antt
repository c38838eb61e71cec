-- ===== src/Output/Color/Shown.antt =====
-- What is shown of texts in colour, by internal/output/color.go, and of their concatenations.
use mailsec_probe.Common.{
  ◌==◌, ◌≡◌, sym, ap, ◌∙◌, Bool, true, false, not, ◌&&◌, [], ◌∷◌, ◌++◌, append_assoc, arith,
}
use mailsec_probe.Output.Color.{Colorizer, color_by_status, dim}
use mailsec_probe.Output.Color.Strip.{
  strip_ansi, strip_ansi-append, strip_ansi-color_by_status, strip_ansi-dim,
}
use mailsec_probe.Signals.{Status}
use mailsec_probe.Text.{Bytes}
use mailsec_probe.Text.Cut.{Lacks}

-- Without the control byte ESC.
abbrev pub Plain : Bytes → Type 0
Plain = Lacks 27

abbrev pub colourless : Colorizer
colourless = record { enabled = false }

-- A coloured text is shown as a plain one, whatever stands behind it.
pub record IsShown (text shown : Bytes) : Type 0 where
  pub stripped : (s : Bytes) → strip_ansi (text ++ s) ≡ shown ++ strip_ansi s

pub Plain-IsShown : (a : Bytes) → Plain a → IsShown a a
Plain-IsShown a h = record { stripped = λ s. strip_ansi-append a s h }

pub append-IsShown : {a a1 b b1 : Bytes} → IsShown a a1 → IsShown b b1 → IsShown (a ++ b) (a1 ++ b1)
append-IsShown {a} {a1} {b} {b1} ha hb = record {
  stripped = λ s.
      ap strip_ansi (append_assoc a b s)
      ∙ ha.stripped (b ++ s)
      ∙ ap (λ t. a1 ++ t) (hb.stripped s)
      ∙ sym (append_assoc a1 b1 (strip_ansi s));
}

pub dim-IsShown :
    (c : Colorizer) (text : Bytes) → Plain text → IsShown (dim c text) (dim colourless text)
unfolding dim
dim-IsShown c text h = record { stripped = λ s. strip_ansi-dim c text s h }

pub color-IsShown :
    (c : Colorizer) (status : Status) (text : Bytes)
    → Plain text
    → IsShown (color_by_status c status text) (color_by_status colourless status text)
unfolding color_by_status
color-IsShown c status text h = record {
  stripped = λ s. strip_ansi-color_by_status c status text s h;
}

-- The test for ESC, which decides it on the texts of the program.
abbrev pub is_plain : Bytes → Bool
is_plain [] = true
is_plain (c ∷ s) = not (c == 27) && is_plain s

pub is_plain-Plain : (s : Bytes) → is_plain s ≡ true → Plain s
is_plain-Plain [] h = tt
is_plain-Plain (c ∷ s) h = (ground arith, is_plain-Plain s (ground arith))

pub literal : (s : Bytes) → is_plain s ≡ true → IsShown s s
literal s h = Plain-IsShown s (is_plain-Plain s h)
