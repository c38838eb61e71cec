-- ===== src/MtaTls.antt =====
-- internal/probe/mtatls: the observation of STARTTLS and DANE at the MX hosts of a domain. The types
-- that the dialer and the probe share; packages outside the repository are arguments.
pub mod Dial
use mailsec_probe.Text.{Bytes}
use mailsec_probe.Common.{ℕ, Bool, false, Option, List, []}
pub mod Chain
pub mod Report
pub mod Features
pub mod Run

-- What the program reads of an `x509.Certificate`. The times are those of RFC 3339 in UTC.
pub record Certificate : Type 0 where
  pub raw : Bytes
  pub raw_spki : Bytes
  pub subject : Bytes
  pub issuer : Bytes
  pub dns_names : List Bytes
  pub not_before : Bytes
  pub not_after : Bytes

pub record MxProbeResult : Type 0 where
  pub host : Bytes
  pub port : ℕ
  pub connected : Bool
  pub connect_err : Bytes
  pub banner_line : Bytes
  pub ehlo_capabilities : List Bytes
  pub starttls_advertised : Bool
  pub starttls_accepted : Bool
  pub tls_version : ℕ
  pub tls_cipher_suite : ℕ
  pub peer_certificates : List Certificate
  pub tls_err : Bytes
  pub duration_ms : ℕ

-- The zero value.
abbrev pub no_result : MxProbeResult
no_result = record {
  host = [];
  port = 0;
  connected = false;
  connect_err = [];
  banner_line = [];
  ehlo_capabilities = [];
  starttls_advertised = false;
  starttls_accepted = false;
  tls_version = 0;
  tls_cipher_suite = 0;
  peer_certificates = [];
  tls_err = [];
  duration_ms = 0;
}

-- The method `Probe` of a `Dialer`: the host, the port and the name for EHLO.
abbrev pub Dialer : Type 0
Dialer = Bytes → ℕ → Bytes → MxProbeResult

-- crypto/x509 and the hashes. `verify` takes the leaf, the intermediates and the name of the host,
-- and returns its error.
pub record Crypto : Type 0 where
  pub verify : Certificate → List Certificate → Bytes → Option Bytes
  pub sha256 : Bytes → Bytes
  pub sha512 : Bytes → Bytes
