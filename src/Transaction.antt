-- ===== src/Transaction.antt =====
-- Classic transactions (reference/rust-client/src/transaction.rs).
pub mod Envelope
pub mod Pending
pub mod Submission
