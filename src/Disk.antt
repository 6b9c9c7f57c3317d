-- ===== src/Disk.antt =====
-- The disks: kernel/src/drivers/block.rs.
pub mod Block
pub mod Pieces
mod Tests
