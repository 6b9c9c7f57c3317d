-- ===== src/Scarf/Tests.antt =====
-- The editor (userland/rust/scarf/src) at concrete inputs.
use anss_os.Common.{
  Allows, List, [], arith, c_string, codes, contains_byte, false, max, none, refl, some, true, ℕ,
  ◌*◌, ◌+◌, ◌-◌, ◌<◌, ◌^◌, ◌∷◌, ◌≡◌, ◌≤◌,
}
use anss_os.Scarf.Files.{Files, wrote}
use anss_os.Scarf.Buffer
use anss_os.Scarf.Buffer.{Buffer, saved_bytes}
use anss_os.Scarf.Editor
use anss_os.Scarf.Editor.{Editor}
use anss_os.Scarf.Keys.{key}
use anss_os.Scarf.View.{scroll_shows_cursor}
use anss_os.Scarf.Layout.{Rect, Layout, layout, digits, SideBySide, layout-SideBySide, digits_lem}
use anss_os.Scarf.Escape.{got, AllRead, special_keys-AllRead}
use anss_os.Keyboard.Keymap.{special_keys}
use anss_os.Scarf.Cursor.{OnText}
use anss_os.Scarf.Session.{Input, typed, drawn, session, session_total, new-OnText}
use anss_os.Scarf.Saving.{AllLines, concat, open_file-save}
use anss_os.Scarf.Unsaved.{Guarded, key_keeps_changes}

-- A file system whose every file holds "hi", in two reads.
abbrev tiny_files : Files
tiny_files = record {
  reads = λ path. some (codes "h" ∷ codes "i\n" ∷ []);
  write_all = λ path data_. wrote true;
  read_dir = λ path. none;
}

abbrev some_input : List (Files × Input)
some_input =
    (tiny_files, typed b'i')
    ∷ (tiny_files, typed b'x')
    ∷ (tiny_files, typed 0x1b)
    ∷ (tiny_files, drawn 10 20)
    ∷ []

session_total_example :
    (e' : Editor) × (session (Editor.new (codes "/")) some_input ≡ some e') × OnText e'
session_total_example = session_total some_input (Editor.new (codes "/")) (new-OnText (codes "/"))

abbrev hi_buffer : Buffer
hi_buffer = record { lines = codes "hi" ∷ []; filename = codes "f"; dirty = true }

hi-AllLines : AllLines hi_buffer.lines
hi-AllLines = ground arith

hi-c_string : c_string (codes "f") ≡ some (codes "f")
unfolding c_string contains_byte
hi-c_string = refl

hi-concat : concat (codes "h" ∷ codes "i\n" ∷ []) ≡ saved_bytes (codes "hi" ∷ [])
unfolding saved_bytes
hi-concat = refl

open_file-save_example :
    (Buffer.open_file tiny_files (codes "f")).0 ≡ (Buffer.save tiny_files hi_buffer).0
open_file-save_example =
    open_file-save tiny_files tiny_files hi_buffer (codes "h" ∷ codes "i\n" ∷ []) hi-AllLines
      (λ e. ground arith) (λ e. ground arith) hi-c_string refl refl (ground arith) hi-concat

abbrev changed : Editor
changed = record (Editor.new (codes "/")) { buf = hi_buffer; quit = false }

key_keeps_changes_example : Allows (Guarded tiny_files changed) (key tiny_files changed b'x')
key_keeps_changes_example = key_keeps_changes tiny_files changed b'x' refl refl

abbrev far_down : Editor
far_down = record (Editor.new (codes "/")) { cx = 3; cy = 40 }

scroll_shows_cursor_example :
    ((Editor.scroll far_down 5 10).cy ≡ 40)
    × ((Editor.scroll far_down 5 10).cx ≡ 3)
    × ((Editor.scroll far_down 5 10).rowoff ≤ (Editor.scroll far_down 5 10).cy)
    × ((Editor.scroll far_down 5 10).cy < (Editor.scroll far_down 5 10).rowoff + max 5 1)
    × ((Editor.scroll far_down 5 10).coloff ≤ (Editor.scroll far_down 5 10).cx)
    × ((Editor.scroll far_down 5 10).cx < (Editor.scroll far_down 5 10).coloff + max 10 1)
scroll_shows_cursor_example = scroll_shows_cursor far_down 5 10

abbrev screen : Rect
screen = record { x = 0; y = 0; width = 80; height = 25 }

abbrev below : Rect → ℕ
below r = r.y + r.height

abbrev panes : Layout
panes = layout below screen true 1200

layout-SideBySide_example :
    SideBySide screen panes.sidebar panes.divider panes.editor
    × (panes.gutter + panes.text_cols ≡ panes.editor.width)
    × (panes.editor.width ≤ 2 * panes.text_cols)
layout-SideBySide_example = layout-SideBySide below screen true 1200 (omega arith)

digits_lem_example : (1200 < 10 ^ digits 1200) × (10 ^ (digits 1200 - 1) ≤ 1200)
digits_lem_example = digits_lem 1200 (omega arith)

special_keys-AllRead_example : AllRead 1 (got b'x' ∷ []) special_keys
special_keys-AllRead_example = special_keys-AllRead 1 (got b'x' ∷ [])
