-- ===== src/Dex.antt =====
-- Offers on the Stellar DEX (reference/rust-client/src/dex.rs): the price as a fraction, rounded
-- texts, what an offer commits its account to, the checks before an offer and the offer itself, and
-- the fills of an account.
pub mod Price
pub mod Ratio
pub mod Liabilities
pub mod Offer
pub mod Capacity
pub mod Preflight
pub mod Prepare
pub mod Fills
pub mod Market
