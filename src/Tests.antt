-- ===== src/Tests.antt =====
-- Runs of the definitions, and the theorems at inputs that exercise the code.
mod Cancellation
mod Throttle
mod Cluster
mod Outbox
mod Chain
mod Location
mod Payouts
mod Window
mod Draw
mod Broadcast
mod Settlement
mod Claims
mod Winner
mod Remainder
mod Funding
mod Http
mod Rewards
