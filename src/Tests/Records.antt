-- ===== src/Tests/Records.antt =====
-- The theorems on tagged records and on SPF, at concrete records.
use mailsec_probe.Spf.Terms.{tilde, parse_spf-last-All}
use mailsec_probe.Common.{All, ◌≡◌, refl, ◌↔◌, true, false, some, List, [], ◌∷◌, map, arith}
use mailsec_probe.Signals.{present}
use mailsec_probe.Spf.{softfail, is_spf, parse_spf}
use mailsec_probe.Spf.Record.{IsSpf, is_spf_iff}
use mailsec_probe.Spf.Verdict.{IsOnly, Protects, run_one-Protects}
use mailsec_probe.Text.{Bytes, codes, is_space, trim_left, trim_right, to_lower, fields, join}
use mailsec_probe.TxtTag.{parse, pick_by_version}
use mailsec_probe.TxtTag.Grammar.{Entry, spell, meaning, IsEntry, parse-spell}
use mailsec_probe.TxtTag.Select.{IsPick, pick_by_version_iff}
use mathlib.Core.List.{cons-ne-nil}
use mailsec_probe.Tests.{answering, example_domain, answer_of}

abbrev entries : List Entry
entries =
    record { before = []; tag = codes "v"; mid = []; gap = []; value = codes "DMARC1"; after = [] }
    ∷ record {
      before = codes " ";
      tag = codes "p";
      mid = codes " ";
      gap = codes " ";
      value = codes "none";
      after = [];
    }
    ∷ []

entries-IsEntry : All IsEntry entries
unfolding is_space trim_left trim_right spell
entries-IsEntry = (
  record {
    before_blank = ground arith;
    mid_blank = ground arith;
    gap_blank = ground arith;
    after_blank = ground arith;
    tag_trimmed = record { left = refl; right = refl };
    value_trimmed = record { left = refl; right = refl };
    tag_lacks = ground arith;
    no_semicolon = ground arith;
  },
  (
    record {
      before_blank = ground arith;
      mid_blank = ground arith;
      gap_blank = ground arith;
      after_blank = ground arith;
      tag_trimmed = record { left = refl; right = refl };
      value_trimmed = record { left = refl; right = refl };
      tag_lacks = ground arith;
      no_semicolon = ground arith;
    },
    tt,
  ),
)

parse-spell_example : parse (join (map spell entries) (b';' ∷ [])) ≡ map meaning entries
parse-spell_example = parse-spell entries (cons-ne-nil _ _) entries-IsEntry

abbrev mixed : List Bytes
mixed = codes "google-site=1" ∷ codes " V=dmarc1; p=none; rua=mailto:x@y" ∷ []

pick_by_version_iff_example :
    (pick_by_version mixed (codes "DMARC1") ≡ some (codes "google-site=1", []))
    ↔ IsPick mixed (codes "DMARC1") (codes "google-site=1") []
pick_by_version_iff_example = pick_by_version_iff mixed (codes "DMARC1") (codes "google-site=1") []

abbrev spf_raw : Bytes
spf_raw = codes "v=spf1 include:_spf.google.com ~ALL"

is_spf_iff_example : (is_spf spf_raw ≡ true) ↔ IsSpf spf_raw
is_spf_iff_example = is_spf_iff spf_raw

parse_spf-last-All_example : (parse_spf spf_raw).qualifier ≡ softfail
unfolding fields to_lower
parse_spf-last-All_example =
    parse_spf-last-All spf_raw (codes "v=spf1" ∷ codes "include:_spf.google.com" ∷ [])
      (codes "~ALL") [] softfail refl (tilde refl refl) tt

abbrev spf_probe : mailsec_probe.Spf.Probe
spf_probe = record { dns = answering (spf_raw ∷ []); include_raw = false }

run_one-Protects_example :
    ((mailsec_probe.Spf.run_one spf_probe example_domain).status ≡ present)
    ↔ ((raw : Bytes) × IsOnly (spf_raw ∷ []) raw × Protects (parse_spf raw))
run_one-Protects_example = run_one-Protects spf_probe example_domain (answer_of (spf_raw ∷ [])) refl
