-- ===== src/Controller.antt =====
-- internal/cluster: the controller. Its methods run under one mutex, so each is one action on the
-- state; a method that takes the lock and its `Locked` part are one definition.
pub mod State
pub mod Registry
pub mod Processes
pub mod Failures
pub mod Placement
pub mod Tick
pub mod Audit
pub mod Scenario
pub mod Views
pub mod Invariant
pub mod Consistency
pub mod Tests
pub mod Frame
pub mod Outcome
