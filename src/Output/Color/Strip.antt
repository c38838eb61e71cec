-- ===== src/Output/Color/Strip.antt =====
-- The escapes of internal/output/color.go: what a text is without them.
use mailsec_probe.Common.{
  ◌==◌, if◌then◌else◌, ◌≡◌, refl, Bool, true, false, [], ◌∷◌, ◌++◌, arith, ap, ◌∙◌, append_assoc,
  Bool-cases, inl, inr,
}
use mailsec_probe.Output.Color.{
  Colorizer, color_by_status, dim, escape, ansi_reset, ansi_bold, by_status, ansi_gray,
}
use mailsec_probe.Signals.{Status, present, absent, unknown, misconfigured, skipped}
use mailsec_probe.Text.{Bytes, codes}
use mailsec_probe.Text.Cut.{Lacks}

-- What a terminal shows: from ESC up to the next `m`, nothing.
unfoldable pub strip_in : Bool → Bytes → Bytes
strip_in hidden [] = []
strip_in true (c ∷ s) =
    let over = strip_in false s in let more = strip_in true s in if c == b'm' then over else more
strip_in false (c ∷ s) =
    let start = strip_in true s in
    let rest = c ∷ strip_in false s in if c == 27 then start else rest

unfoldable pub strip_ansi : Bytes → Bytes
unfolding strip_in
strip_ansi s = strip_in false s

-- A text without ESC is shown as it is.
pub strip_ansi-append : (a s : Bytes) → Lacks 27 a → strip_ansi (a ++ s) ≡ a ++ strip_ansi s
unfolding strip_ansi strip_in
strip_ansi-append [] s h = refl
strip_ansi-append (c ∷ a) s (hc, ha) = ground (arith, strip_ansi-append a s ha)

strip_ansi-escape :
    (parameters s : Bytes)
    → Lacks b'm' parameters
    → strip_ansi (escape parameters ++ s) ≡ strip_ansi s
unfolding strip_ansi strip_in
strip_ansi-escape parameters s h = go parameters h
  where
    go : (p : Bytes) → Lacks b'm' p → strip_in true ((p ++ b'm' ∷ []) ++ s) ≡ strip_in false s
    go [] h = refl
    go (c ∷ p) (hc, hp) = ground (arith, go p hp)

-- A text and a reset are shown as the text.
strip_ansi-reset :
    (text s : Bytes) → Lacks 27 text → strip_ansi ((text ++ ansi_reset) ++ s) ≡ text ++ strip_ansi s
strip_ansi-reset text s h =
    ap strip_ansi (append_assoc text ansi_reset s)
    ∙ strip_ansi-append text (ansi_reset ++ s) h
    ∙ ap (λ u. text ++ u) (strip_ansi-escape (codes "0") s ((omega arith), tt))

-- An escape before a text is not shown.
strip_ansi-start :
    (parameters text s : Bytes)
    → Lacks b'm' parameters
    → strip_ansi ((escape parameters ++ text) ++ s) ≡ strip_ansi (text ++ s)
strip_ansi-start parameters text s h =
    ap strip_ansi (append_assoc (escape parameters) text s)
    ∙ strip_ansi-escape parameters (text ++ s) h

bold-strip :
    (parameters text s : Bytes)
    → Lacks b'm' parameters
    → Lacks 27 text
    → strip_ansi ((escape parameters ++ (ansi_bold ++ (text ++ ansi_reset))) ++ s)
      ≡ text ++ strip_ansi s
bold-strip parameters text s hp h =
    strip_ansi-start parameters (ansi_bold ++ (text ++ ansi_reset)) s hp
    ∙ strip_ansi-start (codes "1") (text ++ ansi_reset) s (omega arith, tt)
    ∙ strip_ansi-reset text s h

gray-strip :
    (text s : Bytes)
    → Lacks 27 text
    → strip_ansi ((ansi_gray ++ (text ++ ansi_reset)) ++ s) ≡ text ++ strip_ansi s
gray-strip text s h =
    strip_ansi-start (codes "90") (text ++ ansi_reset) s (omega arith, (omega arith, tt))
    ∙ strip_ansi-reset text s h

by_status-strip :
    (status : Status) (text s : Bytes)
    → Lacks 27 text
    → strip_ansi (by_status status text ++ s) ≡ text ++ strip_ansi s
by_status-strip present text s h = bold-strip (codes "32") text s (omega arith, (omega arith, tt)) h
by_status-strip misconfigured text s h =
    bold-strip (codes "33") text s (omega arith, (omega arith, tt)) h
by_status-strip unknown text s h = bold-strip (codes "31") text s (omega arith, (omega arith, tt)) h
by_status-strip absent text s h = gray-strip text s h
by_status-strip skipped text s h = gray-strip text s h

-- Whether in colour or not, a coloured text is shown as the text.
pub strip_ansi-color_by_status :
    (c : Colorizer) (status : Status) (text s : Bytes)
    → Lacks 27 text
    → strip_ansi (color_by_status c status text ++ s) ≡ text ++ strip_ansi s
unfolding color_by_status
strip_ansi-color_by_status c status text s h = elim (Bool-cases c.enabled) [
  | inl on ↦ rw on (by_status-strip status text s h)
  | inr off ↦ rw off (strip_ansi-append text s h)
]

pub strip_ansi-dim :
    (c : Colorizer) (text s : Bytes)
    → Lacks 27 text
    → strip_ansi (dim c text ++ s) ≡ text ++ strip_ansi s
unfolding dim
strip_ansi-dim c text s h = elim (Bool-cases c.enabled) [
  | inl on ↦ rw on (gray-strip text s h)
  | inr off ↦ rw off (strip_ansi-append text s h)
]
