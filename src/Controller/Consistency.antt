-- ===== src/Controller/Consistency.antt =====
-- The methods of the controller and the invariant, one child for each group of methods.
pub mod Release
pub mod Commands
pub mod Failing
pub mod NodeFailure
pub mod NodeStatus
pub mod Registry
pub mod Placement
pub mod Tick
pub mod Queue
pub mod Execution
pub mod Schedule
pub mod Audit
