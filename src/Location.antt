-- ===== src/Location.antt =====
-- location_behavior_guard.py: what a user's signed claims and map polls say of their behaviour.
pub mod State
pub mod Observe
