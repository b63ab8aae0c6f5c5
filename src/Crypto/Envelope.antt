-- ===== src/Crypto/Envelope.antt =====
-- Message envelopes: web/src/crypto/envelope.ts. The buffer that `encryptWith` fills at a running
-- offset is the concatenation of the fields.
pub mod Numbers
pub mod Encrypt
pub mod Parse
pub mod Header
pub mod RoundTrip
