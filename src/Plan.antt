-- ===== src/Plan.antt =====
-- src/exo/worker/plan.py: what a worker does next. Each helper looks for its first reason to act,
-- and `plan` takes the first helper that has one. A lookup of a missing key and a failed assertion
-- raise. `fresh` is the id that the new task gets (`uuid4`), and the two backoffs are given by
-- their answers at this moment.
pub mod Supervisor
pub mod Lifecycle
pub mod Startup
pub mod Dispatch
pub mod Chain
