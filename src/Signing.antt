-- ===== src/Signing.antt =====
-- The coordination of signatures (reference/rust-client/src/signing_coordination.rs).
pub mod Select
