-- ===== src/Signals.antt =====
-- internal/signals/signals.go: observations and verdicts. The `any` of `Feature.Details` is a type
-- parameter, and a confidence is held in hundredths (95 is 0.95).
use mailsec_probe.Common.{ℕ, Bool, true, false, Option, none, List, []}
use mailsec_probe.Text.{Bytes, codes}

pub data Status : Type 0 where
  present absent unknown misconfigured skipped : Status

pub data Source : Type 0 where
  dns_txt dns_mx dns_a dns_ds https_get composite : Source

-- The string that a `Status` is.
unfoldable pub status_text : Status → Bytes
status_text present = codes "present"
status_text absent = codes "absent"
status_text unknown = codes "unknown"
status_text misconfigured = codes "misconfigured"
status_text skipped = codes "skipped"

-- `s == t` on statuses.
unfoldable pub status_eq : Status → Status → Bool
status_eq present present = true
status_eq absent absent = true
status_eq unknown unknown = true
status_eq misconfigured misconfigured = true
status_eq skipped skipped = true
status_eq _ _ = false

-- An empty `records`, `meta` or `err` is the zero value of its field.
pub record Signal : Type 0 where
  pub source : Source
  pub target : Bytes
  pub ok : Bool
  pub records : List Bytes
  pub meta : List (Bytes × Bytes)
  pub err : Bytes

pub record Feature (D : Type 0) : Type 0 where
  pub name : Bytes
  pub status : Status
  pub confidence : ℕ
  pub reasons : List Bytes
  pub details : Option D
  pub signals : List Signal

-- `queried_at` is a time stamp that the environment supplies.
pub record Report (D : Type 0) : Type 0 where
  pub domain : Bytes
  pub queried_at : ℕ
  pub features : List (Feature D)
  pub errors : List Bytes

abbrev pub is_nil : Option Bytes → Bool
is_nil none = true
is_nil _ = false

abbrev pub error_text : Option Bytes → Bytes
error_text none = []
error_text (Option.some e) = e

-- The `Signal` of one lookup: `ok` says that there is no error, and `err` is the error's text.
abbrev pub lookup_signal : Source → Bytes → Option Bytes → List Bytes → Signal
lookup_signal source target err records = record {
  source = source;
  target = target;
  ok = is_nil err;
  records = records;
  meta = [];
  err = error_text err;
}

abbrev pub feature :
    {D : Type 0} → Bytes → Status → ℕ → List Bytes → Option D → List Signal → Feature D
feature name status confidence reasons details signals = record {
  name = name;
  status = status;
  confidence = confidence;
  reasons = reasons;
  details = details;
  signals = signals;
}
