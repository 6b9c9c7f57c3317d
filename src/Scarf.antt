-- ===== src/Scarf.antt =====
-- userland/rust/scarf/src: the modal text editor.
pub mod Files
pub mod Buffer
pub mod Sidebar
pub mod Editor
pub mod Keys
pub mod Escape
pub mod Layout
pub mod View
pub mod Cursor
pub mod Typing
pub mod Session
pub mod Saving
pub mod Unsaved
mod Tests
