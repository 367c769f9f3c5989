-- ===== src/Tools.antt =====
-- tools/: the tool table, the re-checks of writes, and the one tool that applies a change.
pub mod Registry
pub mod Rechecks
pub mod Confirm
pub mod Middleware
pub mod Operations
