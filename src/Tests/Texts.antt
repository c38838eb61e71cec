-- ===== src/Tests/Texts.antt =====
-- The theorem on the text for a reader, at a report with two features and an error.
use mailsec_probe.Output.Color.Shown.{is_plain-Plain}
use mailsec_probe.Output.Color.Strip.{strip_ansi}
use mailsec_probe.Output.Human.{primary_detail, write_human_colored, write_human}
use mailsec_probe.Output.Human.Colorless.{IsPlainReport, write_human_colored-strip}
use mailsec_probe.Signals.{Status, present, unknown, status_eq, Feature, Report}
use mailsec_probe.Text.{Bytes, codes}
use mailsec_probe.Common.{ℕ, ◌≡◌, refl, true, Option, some, List, [], ◌∷◌}
use mailsec_probe.Tests.{example_domain}

abbrev shown_feature : Bytes → Status → List Bytes → Feature ℕ
shown_feature name status reasons = record {
  name = name;
  status = status;
  confidence = 95;
  reasons = reasons;
  details = some 7;
  signals = [];
}

abbrev summarize_number : ℕ → Option Bytes
summarize_number n = some (codes "seven")

abbrev shown_report : Report ℕ
shown_report = record {
  domain = example_domain;
  queried_at = 3;
  features =
      shown_feature (codes "spf") present (codes "ok" ∷ [])
      ∷ shown_feature (codes "mx") unknown (codes "no answer" ∷ [])
      ∷ [];
  errors = codes "late" ∷ [];
}

shown_report-IsPlain : IsPlainReport ℕ summarize_number shown_report
unfolding primary_detail status_eq
shown_report-IsPlain = record {
  plain_domain = is_plain-Plain example_domain refl;
  plain_features = (
    record {
      plain_name = is_plain-Plain (codes "spf") refl;
      plain_detail = is_plain-Plain (codes "seven") refl;
    },
    (
      record {
        plain_name = is_plain-Plain (codes "mx") refl;
        plain_detail = is_plain-Plain (codes "no answer  |  seven") refl;
      },
      tt,
    ),
  );
  plain_errors = (is_plain-Plain (codes "late") refl, tt);
}

write_human_colored-strip_example :
    strip_ansi
      (write_human_colored (record { enabled = true }) summarize_number (shown_report ∷ []))
    ≡ write_human summarize_number (shown_report ∷ [])
write_human_colored-strip_example =
    write_human_colored-strip ℕ summarize_number (record { enabled = true }) (shown_report ∷ [])
      (shown_report-IsPlain, tt)
