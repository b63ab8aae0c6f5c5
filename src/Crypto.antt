-- ===== src/Crypto.antt =====
-- The end-to-end encryption layer: web/src/crypto.
pub mod Bits
pub mod Bytes
pub mod Ids
pub mod Primitives
pub mod Seal
pub mod Envelope
pub mod Files
pub mod Account
pub mod Fingerprint
