-- ===== src/Keyboard.antt =====
-- kernel/src/drivers/keymap.rs: the bytes that a key sends.
pub mod Keymap
pub mod Ascii
mod Tests
