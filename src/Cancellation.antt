-- ===== src/Cancellation.antt =====
-- cancellation_safety.py: the durable lease under which a Spot's cancellation sends money. The rows
-- are those of one Spot: every statement of the module is keyed by its id.
pub mod Guard
pub mod Submit
