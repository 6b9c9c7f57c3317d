-- ===== src/Keyboard/Tests.antt =====
-- The keymap (kernel/src/drivers/keymap.rs) at concrete inputs.
use anss_os.Common.{Allows, [], arith, some, ℕ, ◌<◌, ◌∷◌, ◌≡◌}
use anss_os.Keyboard.Keymap.{bytes}
use anss_os.Keyboard.Ascii.{Sendable, bytes-Sendable, every_printable}

bytes-Sendable_example : Allows Sendable (bytes 103 1)
bytes-Sendable_example = bytes-Sendable 103 1 (omega arith)

every_printable_example :
    (code : ℕ) × (shift : ℕ) × (shift < 2) × (bytes code shift ≡ some (b'~' ∷ []))
every_printable_example = every_printable b'~' (omega arith) (omega arith)
