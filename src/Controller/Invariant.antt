-- ===== src/Controller/Invariant.antt =====
-- The consistency of the controller's two maps: what validateInvariantsLocked checks, and what
-- the scheduler relies on. Every mutation of the maps is one of the moves of Writes (a process),
-- Nodes (a node) and Resources (both).
pub mod Totals
pub mod Facts
pub mod Writes
pub mod Nodes
pub mod Resources
pub mod Undo
