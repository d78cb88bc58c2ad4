-- ===== src/Tests.antt =====
-- Runs of the definitions on concrete data: one module for the data, and one for each part.
mod Sample
mod Numbers
mod Amounts
mod Signatures
mod Envelopes
mod Payments
mod Pending
mod Offers
mod Fills
mod Market
mod Agents
mod Contacts
