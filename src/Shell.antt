-- ===== src/Shell.antt =====
-- The shell: userland/rust/sh/src.
pub mod History
pub mod Kept
pub mod Matches
pub mod Recall
pub mod Complete
mod Tests
