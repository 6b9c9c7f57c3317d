-- ===== src/Vfs.antt =====
-- kernel/src/fs/vfs.rs: the file system in memory.
pub mod Store
pub mod Paths
pub mod Ops
pub mod Forest
pub mod Linking
pub mod Loose
pub mod Relabel
pub mod Create
pub mod Reached
pub mod Move
pub mod Write
pub mod Depth
pub mod Free
pub mod Remove
pub mod Run
pub mod Errors
pub mod Written
mod Tests
