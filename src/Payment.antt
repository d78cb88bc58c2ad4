-- ===== src/Payment.antt =====
-- Payments (reference/rust-client/src/payment.rs).
pub mod Memo
pub mod Funds
pub mod Prepare
