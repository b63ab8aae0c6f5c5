-- ===== src/Crypto/Envelope/RoundTrip.antt =====
-- Envelopes that `encryptWith` returns, read again by `parse`, `verifyEnvelope` and `decrypt`.
pub mod Recipients
pub mod Written
pub mod Fields
pub mod Parsed
pub mod Theorem
