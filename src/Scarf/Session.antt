-- ===== src/Scarf/Session.antt =====
-- Whole sessions of userland/rust/scarf/src/editor.rs: any keys, whatever the file system answers.
use anss_os.Common.{
  Bytes, Ensures, Ensures-bind, Ensures-some, List, Option, [], arith, length, length-remove,
  length-set, refl, remove, some, ℕ, ◌+◌, ◌-◌, ◌<◌, ◌>>=◌, ◌∷◌, ◌≡◌, ◌≢◌,
}
use anss_os.Scarf.Files.{Files}
use anss_os.Scarf.Buffer
use anss_os.Scarf.Buffer.{Buffer}
use anss_os.Scarf.Sidebar
use anss_os.Scarf.Editor
use anss_os.Scarf.Editor.{
  Editor, Mode, normal, insert, command, Focus, on_text, on_sidebar, Special, up, down, left, right,
  home, end_key, delete, lines, line, set_line, clamp_cx, remove_char, open_file, save,
  sidebar_reload, max_cx,
}
use anss_os.Scarf.Keys.{
  write_as, edit_or_write, path_command, save_and_quit, do_command, run_command, key_command,
  sidebar_activate, sidebar_parent, key_sidebar, start_command, dispatch, toggle_sidebar,
  switch_focus, key, special_insert, special_by, special, special_key,
}
use anss_os.Scarf.Cursor.{OnText, line_length, line_cases, line_length-set, clamp_cx-OnText}
use anss_os.Scarf.Typing.{key_normal-OnText, key_insert-OnText, at_least_one-pos}

module _ (files : Files) where
  open_file-pos : (path : Bytes) → 0 < length (Buffer.open_file files path).0.lines
  unfolding Buffer.open_file Buffer.loaded_lines
  open_file-pos path = grind (arith, at_least_one-pos)

  save-lines : (b : Buffer) → (Buffer.save files b).0.lines ≡ b.lines
  unfolding Buffer.save
  save-lines b = ground arith

  open_file-OnText : (e : Editor) (path : Bytes) → e.mode ≢ insert → OnText (open_file files e path)
  unfolding open_file
  open_file-OnText e path m = ground (arith, open_file-pos path)

  editor_save-OnText : (e : Editor) → OnText e → OnText (save files e).0
  unfolding save sidebar_reload
  editor_save-OnText e t = ground (arith, save-lines e.buf)

  path_command-OnText :
      (e : Editor) (cmd : Bytes) → OnText e → e.mode ≡ normal → OnText (path_command files e cmd)
  unfolding path_command edit_or_write write_as
  path_command-OnText e cmd t m = grind (arith, open_file-OnText, editor_save-OnText)

  do_command-OnText :
      (e : Editor) (cmd : Bytes) → OnText e → e.mode ≡ normal → OnText (do_command files e cmd)
  unfolding do_command save_and_quit
  do_command-OnText e cmd t m =
      ground (arith, path_command-OnText e cmd t m, editor_save-OnText e t)

  key_command-OnText :
      (e : Editor) (c : ℕ) → OnText e → e.mode ≡ command → Ensures OnText (key_command files e c)
  unfolding key_command run_command
  key_command-OnText e c t m = ground (
    arith,
    do_command-OnText (record e { cmd = []; mode = normal }) e.cmd,
    clamp_cx-OnText (do_command files (record e { cmd = []; mode = normal }) e.cmd),
  )

  key_sidebar-OnText :
      (e : Editor) (c : ℕ) → OnText e → e.mode ≡ normal → OnText (key_sidebar files e c)
  unfolding key_sidebar sidebar_activate sidebar_parent sidebar_reload start_command
  key_sidebar-OnText e c t m = grind (arith, open_file-OnText)

  dispatch-OnText :
      (m : Mode) (f : Focus) (e : Editor) (c : ℕ)
      → e.mode ≡ m
      → OnText e
      → Ensures OnText (dispatch files m f e c)
  unfolding dispatch
  dispatch-OnText command f e c m t = key_command-OnText e c t m
  dispatch-OnText insert f e c m t = key_insert-OnText e c t m
  dispatch-OnText normal on_sidebar e c m t = key_sidebar-OnText e c t m
  dispatch-OnText normal on_text e c m t = key_normal-OnText e c t m

  key-OnText : (e : Editor) (c : ℕ) → OnText e → Ensures OnText (key files e c)
  unfolding key toggle_sidebar switch_focus
  key-OnText e c t = ground (arith, dispatch-OnText e.mode e.focus e c refl t)

remove_here-OnText :
    (e : Editor)
    → OnText e
    → e.mode ≡ insert
    → e.cx < line_length (lines e) e.cy
    → Ensures OnText (remove_char e e.cx)
unfolding remove_char set_line
remove_here-OnText e t m h = line_cases OnText e _ t.row_in λ l len found. ground (
  arith,
  length-set (lines e) e.cy (remove l e.cx),
  line_length-set (lines e) e.cy (remove l e.cx),
  length-remove l e.cx,
)

special_insert-OnText :
    (k : Special) (e : Editor) → OnText e → e.mode ≡ insert → Ensures OnText (special_insert k e)
unfolding special_insert remove_char set_line
special_insert-OnText up e t m = line_cases OnText e _ t.row_in λ l len found.
    ground (arith, clamp_cx-OnText e t.row_in, clamp_cx-OnText (record e { cy = e.cy - 1 }))
special_insert-OnText down e t m = line_cases OnText e _ t.row_in λ l len found.
    ground (arith, clamp_cx-OnText e t.row_in, clamp_cx-OnText (record e { cy = e.cy + 1 }))
special_insert-OnText left e t m = line_cases OnText e _ t.row_in λ l len found. ground arith
special_insert-OnText right e t m = line_cases OnText e _ t.row_in λ l len found. ground arith
special_insert-OnText home e t m = line_cases OnText e _ t.row_in λ l len found. ground arith
special_insert-OnText end_key e t m = line_cases OnText e _ t.row_in λ l len found. ground arith
special_insert-OnText delete e t m =
    line_cases OnText e _ t.row_in λ l len found. ground (arith, remove_here-OnText e t m)

-- A session: keys and special keys, and the rows and columns of the panes when a frame is drawn.
pub data Input : Type 0 where
  typed : ℕ → Input
  pressed : Special → Input
  drawn : ℕ → ℕ → Input

module _ (files : Files) where
  special_by-OnText :
      (m : Mode) (e : Editor) (k : Special)
      → e.mode ≡ m
      → OnText e
      → Ensures OnText (special_by files m e k)
  unfolding special_by
  special_by-OnText command e k m t = t
  special_by-OnText insert e k m t = special_insert-OnText k e t m
  special_by-OnText normal e k m t = key-OnText files e (special_key k) t

-- One input, with what the file system answers while it is handled.
unfoldable pub input : Editor → Files × Input → Option Editor
input e (files, typed c) = key files e c
input e (files, pressed k) = special files e k
input e (files, drawn rows cols) =
    let e1 = Editor.scroll e rows cols in
    some (record e1 { sidebar = Sidebar.scroll e1.sidebar rows })

unfoldable pub session : Editor → List (Files × Input) → Option Editor
session e [] = some e
session e (i ∷ is) = input e i >>= λ e'. session e' is

input-OnText : (e : Editor) (i : Files × Input) → OnText e → Ensures OnText (input e i)
unfolding input special Editor.scroll
input-OnText e (files, typed c) t = key-OnText files e c t
input-OnText e (files, pressed k) t = special_by-OnText files e.mode e k refl t
input-OnText e (files, drawn rows cols) t = ground arith

session-OnText : (is : List (Files × Input)) (e : Editor) → OnText e → Ensures OnText (session e is)
unfolding session
session-OnText [] e t = t
session-OnText (i ∷ is) e t =
    Ensures-bind OnText OnText (input e i) (λ e'. session e' is) (input-OnText e i t)
      (session-OnText is)

-- Whatever is typed and whatever the file system answers, the editor does not panic: each line and
-- column that a key reads, inserts at or removes exists. The cursor stays on a line of the text,
-- on a character of it except while inserting, where it may stand just past the last one.
pub session_total :
    (is : List (Files × Input)) (e : Editor)
    → OnText e
    → (e' : Editor) × (session e is ≡ some e') × OnText e'
session_total is e t = Ensures-some OnText (session e is) (session-OnText is e t)

-- A new editor has its cursor on its one line.
pub new-OnText : (cwd : Bytes) → OnText (Editor.new cwd)
unfolding Editor.new Buffer.new
new-OnText cwd = omega arith
