-- ===== src/Signature.antt =====
-- src/lib/signature.c: keys and signatures in the format of signify.
pub mod Keys
pub mod Accepted
pub mod Loaded
pub mod Examples
