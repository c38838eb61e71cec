-- ===== src/Dkim.antt =====
-- internal/probe/dkim: the DKIM keys at <selector>._domainkey.<domain>.
pub mod Der
pub mod Key
pub mod Infer
pub mod Scan
pub mod Build
