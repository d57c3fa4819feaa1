-- ===== src/Controller/Outcome.antt =====
-- What the methods of the controller answer: the outcomes that a caller has to expect.
pub mod Defs
pub mod Commands
pub mod Nodes
pub mod Tick
pub mod Placement
pub mod Schedule
pub mod Step
pub mod Clock
pub mod Completion
pub mod Effects
