-- ===== src/Settlement.antt =====
-- Prizes and rewards (settlement_updater.py).
pub mod Prizes
pub mod Draw
pub mod Remainder
pub mod Payouts
pub mod Winners
