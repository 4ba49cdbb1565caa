-- ===== src/Payer.antt =====
-- tools/ppops-payer: the payer's side, which checks a payment request and keeps a journal of what it
-- submitted.
pub mod Failures
pub mod Request
pub mod Journal
pub mod Guards
pub mod Loading
pub mod GasQuorum
