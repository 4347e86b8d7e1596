-- ===== src/Throttle.antt =====
-- claim_payout_throttle.py: how fast, and how much, claim rewards are paid without an operator.
pub mod Decision
pub mod Window
pub mod Ledger
pub mod Reserve
pub mod Exposure
pub mod Timeline
pub mod Submit
