-- ===== src/Placement.antt =====
-- src/exo/master/placement_utils.py and src/exo/master/placement.py: where an instance is placed.
pub mod Floats
pub mod Layers
pub mod Allocation
pub mod Shards
pub mod Assigned
pub mod Stages
pub mod Transition
pub mod Cancelled
pub mod Applied
pub mod Reached
pub mod Wiring
pub mod Rows
pub mod Search
pub mod Placing
pub mod Survivors
pub mod Eligible
pub mod Aims
pub mod Tests
pub mod Trials
