-- ===== src/HttpFetcher.antt =====
-- internal/probe/httpfetcher/httpfetcher.go: the interface `Fetcher`, which the probes take. A call
-- answers with a status code (0 where there was no response), a body and an error that may be nil.
pub mod Client
use mailsec_probe.Text.{Bytes}
use mailsec_probe.Common.{ℕ, Option}

pub record Fetcher : Type 0 where
  pub get : Bytes → ℕ × Bytes × Option Bytes
  pub head : Bytes → ℕ × Option Bytes
