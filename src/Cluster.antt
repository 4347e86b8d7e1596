-- ===== src/Cluster.antt =====
-- wallet_cluster_guard.py: which wallet first funded a claimant, and how many claimants it funded.
pub mod Source
pub mod Observe
