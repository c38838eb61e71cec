-- ===== src/DnsClient.antt =====
-- internal/probe/dnsclient: the results of lookups, and the interface `Client` that the probes
-- take. A lookup returns its result with an error that may be nil, given by its text. The context
-- of a call is left out: a client answers each query at once, and the same query in one way.
pub mod Hex
pub mod Doh
pub mod Udp
pub mod Mock
use mailsec_probe.Common.{ℕ, Bool, Option, List}
use mailsec_probe.Text.{Bytes}

pub record TxtResult : Type 0 where
  pub records : List Bytes
  pub ad : Bool
  pub rcode : ℕ

pub record MxRecord : Type 0 where
  pub host : Bytes
  pub preference : ℕ

pub record MxResult : Type 0 where
  pub records : List MxRecord
  pub ad : Bool
  pub rcode : ℕ

pub record TlsaRecord : Type 0 where
  pub usage : ℕ
  pub selector : ℕ
  pub matching_type : ℕ
  pub payload : Bytes

pub record TlsaResult : Type 0 where
  pub records : List TlsaRecord
  pub ad : Bool
  pub rcode : ℕ

pub record Client : Type 0 where
  pub lookup_txt : Bytes → TxtResult × Option Bytes
  pub lookup_mx : Bytes → MxResult × Option Bytes
  pub lookup_tlsa : Bytes → TlsaResult × Option Bytes
  pub has_ds : Bytes → Bool × Option Bytes
