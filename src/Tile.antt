-- ===== src/Tile.antt =====
-- userland/rust/tile/src/vt.rs: the virtual terminal of one pane.
pub mod Screen
pub mod Csi
pub mod Feed
pub mod Valid
pub mod Erase
pub mod Print
mod Tests
