-- ===== src/Commands.antt =====
-- cmd: the three programs, as far as their arguments, their environment and the exit decide.
pub mod Answers
pub mod Clusterctl
pub mod Logging
pub mod Server
pub mod Simulator
pub mod Tests
