-- ===== src/Scarf/Keys.antt =====
-- userland/rust/scarf/src/editor.rs: what each key does, by mode and focus.
use Prim.Native.String.{String}
use anss_os.Common.{
  Bool, Bytes, Option, [], bytes_eq, check, codes, drop, false, if◌then◌else◌, is_empty, leb,
  length, ltb, min, none, not, remove, some, strip_prefix, suc, take, true, zero, ℕ, ◌&&◌, ◌++◌,
  ◌+◌, ◌-◌, ◌==◌, ◌>>=◌, ◌||◌, ◌∷◌,
}
use anss_os.Scarf.Files.{Files}
use anss_os.Scarf.Buffer
use anss_os.Scarf.Buffer.{Buffer}
use anss_os.Scarf.Sidebar
use anss_os.Scarf.Sidebar.{Sidebar, Activate, nothing, open_path}
use anss_os.Scarf.Editor.{
  Editor, Mode, normal, insert, command, Focus, on_text, on_sidebar, Special, up, down, left, right,
  home, end_key, delete, ctrl_b, ctrl_e, esc_key, tab_stop, cmd_max, is_enter, is_backspace,
  is_printable, lines, line, set_line, set_message, open_file, sidebar_reload, save, clamp_cx,
  word_forward, word_back, delete_word, remove_char, insert_char,
}

-- ---------- normal mode ----------

unfoldable pub start_command : Editor → Editor
start_command e = record e { mode = command; cmd = []; message = "" }

-- `dd` and `dw`, and any other key after `d`.
unfoldable pub operator_d : Editor → ℕ → Option Editor
operator_d e c =
    (if c == b'd'
      then (let b = Buffer.delete_line e.buf e.cy in
          some (record e { buf = b; cy = min e.cy (length b.lines - 1) }))
      else if c == b'w'
      then delete_word e
      else some e)
    >>= clamp_cx

unfoldable pub operator_g : Editor → ℕ → Editor
operator_g e c = if c == b'g' then record e { cx = 0; cy = 0 } else e

-- The motions: `h l j k 0 $ w b G`.
unfoldable pub key_motion : Editor → ℕ → Option Editor
key_motion e c =
    if c == b'h'
    then some (record e { cx = e.cx - 1 })
    else if c == b'l'
    then (line e >>= λ l.
        some (if ltb (e.cx + 1) (length l) then record e { cx = e.cx + 1 } else e))
    else if c == b'j'
    then (if ltb (e.cy + 1) (length (lines e))
        then clamp_cx (record e { cy = e.cy + 1 })
        else some e)
    else if c == b'k'
    then (if ltb 0 e.cy then clamp_cx (record e { cy = e.cy - 1 }) else some e)
    else if c == b'0'
    then some (record e { cx = 0 })
    else if c == b'$'
    then (line e >>= λ l. some (record e { cx = length l - 1 }))
    else if c == b'w'
    then (word_forward e >>= clamp_cx)
    else if c == b'b'
    then (word_back e >>= clamp_cx)
    else if c == b'G'
    then clamp_cx (record e { cy = length (lines e) - 1 })
    else some e

-- `Vec::insert` of an empty line, and where the cursor goes.
unfoldable pub open_line : Editor → ℕ → Option Editor
open_line e at = Buffer.insert_line e.buf at [] >>= λ b.
    some (record e { buf = b; cx = 0; cy = at; mode = insert })

-- The keys that change the text or the mode: `x i a A o O :`.
unfoldable pub key_change : Editor → ℕ → Option Editor
key_change e c =
    if c == b'x'
    then (line e >>= λ l. (if ltb e.cx (length l) then remove_char e e.cx else some e) >>= clamp_cx)
    else if c == b'i'
    then some (record e { mode = insert })
    else if c == b'a'
    then (line e >>= λ l.
        some (record e { cx = (if is_empty l then e.cx else e.cx + 1); mode = insert }))
    else if c == b'A'
    then (line e >>= λ l. some (record e { cx = length l; mode = insert }))
    else if c == b'o'
    then open_line e (e.cy + 1)
    else if c == b'O'
    then open_line e e.cy
    else if c == b':'
    then some (start_command e)
    else some e

unfoldable pub is_motion : ℕ → Bool
is_motion c =
    c == b'h'
    || c == b'l'
    || c == b'j'
    || c == b'k'
    || c == b'0'
    || c == b'$'
    || c == b'w'
    || c == b'b'
    || c == b'G'

-- A key with no operator before it.
unfoldable pub key_plain : Editor → ℕ → Option Editor
unfolding is_motion
key_plain e c =
    if is_motion c
    then key_motion e c
    else if c == b'g' || c == b'd'
    then some (record e { pending = some c })
    else key_change e c

unfoldable pub key_normal : Editor → ℕ → Option Editor
key_normal e c =
    let e1 : Editor = record e { pending = none } in
    elim e.pending [
      | none ↦ key_plain e1 c
      | some op ↦
          if op == b'd'
          then operator_d e1 c
          else if op == b'g'
          then some (operator_g e1 c)
          else key_plain e1 c
    ]

-- ---------- insert mode ----------

-- `split_off(cx)` on the line, and the rest as the next line.
unfoldable pub split_line : Editor → Option Editor
split_line e = line e >>= λ l. check (leb e.cx (length l)) (set_line e (take e.cx l)) >>= λ e1.
    Buffer.insert_line e1.buf (e.cy + 1) (drop e.cx l) >>= λ b.
    some (record e1 { buf = b; cx = 0; cy = e.cy + 1 })

-- The cursor's line taken out, and the cursor on the line before.
unfoldable pub without_line : Editor → Editor
without_line e = record e { buf = record e.buf { lines = remove e.buf.lines e.cy }; cy = e.cy - 1 }

-- Joins with the previous line; `lines.remove(cy)` panics out of range, as `line` does.
unfoldable pub join_lines : Editor → Option Editor
join_lines e = line e >>= λ l. line (without_line e) >>= λ before.
    some (set_line (record (without_line e) { cx = length before }) (before ++ l))

unfoldable pub backspace : Editor → Option Editor
backspace e =
    if ltb 0 e.cx
    then remove_char (record e { cx = e.cx - 1 }) (e.cx - 1)
    else if ltb 0 e.cy
    then join_lines e
    else some e

-- `n` rounds of `insert_char`.
unfoldable pub insert_chars : ℕ → Editor → ℕ → Option Editor
insert_chars zero e c = some e
insert_chars (suc n) e c = insert_char e c >>= λ e'. insert_chars n e' c

unfoldable pub key_insert : Editor → ℕ → Option Editor
key_insert e c =
    if c == esc_key
    then clamp_cx (record e { mode = normal; cx = e.cx - 1 })
    else if is_enter c
    then split_line e
    else if is_backspace c
    then backspace e
    else if c == b'\t'
    then insert_chars tab_stop e b' '
    else if is_printable c
    then insert_char e c
    else some e

-- ---------- the command line and the sidebar ----------

-- `String::pop`
unfoldable pub pop_byte : Bytes → Option Bytes
pop_byte [] = none
pop_byte (x ∷ xs) = some (take (length xs) (x ∷ xs))

abbrev pub unsaved_edit : String
unsaved_edit = "unsaved changes -- :w first, or :e! to discard"

module _ (files : Files) where
  -- `w path`
  unfoldable pub write_as : Editor → Bytes → Editor
  write_as e cmd = elim (strip_prefix (codes "w ") cmd) [
    | none ↦ set_message e "unknown command"
    | some path ↦ (save files (record e { buf = record e.buf { filename = path } })).0
  ]

  -- `e path`
  unfoldable pub edit_or_write : Editor → Bytes → Editor
  edit_or_write e cmd = elim (strip_prefix (codes "e ") cmd) [
    | none ↦ write_as e cmd
    | some path ↦ if e.buf.dirty then set_message e unsaved_edit else open_file files e path
  ]

  -- A command that is no single word: `e! path`, `e path` or `w path`.
  unfoldable pub path_command : Editor → Bytes → Editor
  path_command e cmd = elim (strip_prefix (codes "e! ") cmd) [
    | none ↦ edit_or_write e cmd
    | some path ↦ open_file files e path
  ]

  -- `:wq` and `:x`
  unfoldable pub save_and_quit : Editor → Editor
  save_and_quit e = let (e1, ok) = save files e in if ok then record e1 { quit = true } else e1

  unfoldable pub do_command : Editor → Bytes → Editor
  do_command e cmd =
      if bytes_eq cmd (codes "q")
      then (if e.buf.dirty
          then set_message e "unsaved changes -- :q! to discard, :wq to save"
          else record e { quit = true })
      else if bytes_eq cmd (codes "q!")
      then record e { quit = true }
      else if bytes_eq cmd (codes "w")
      then (save files e).0
      else if bytes_eq cmd (codes "wq") || bytes_eq cmd (codes "x")
      then save_and_quit e
      else path_command e cmd

  unfoldable pub run_command : Editor → Option Editor
  run_command e = clamp_cx (do_command (record e { cmd = []; mode = normal }) e.cmd)

  unfoldable pub key_command : Editor → ℕ → Option Editor
  key_command e c =
      if c == esc_key
      then some (record e { mode = normal; cmd = [] })
      else if is_enter c
      then run_command e
      else if is_backspace c
      then some (elim (pop_byte e.cmd) [
        | none ↦ record e { mode = normal }
        | some cmd ↦ record e { cmd = cmd }
      ])
      else if is_printable c && ltb (length e.cmd) cmd_max
      then some (record e { cmd = e.cmd ++ c ∷ [] })
      else some e

  unfoldable pub sidebar_activate : Editor → Editor
  sidebar_activate e =
      let (s, asked) = Sidebar.activate files e.sidebar in
      let e1 : Editor = record e { sidebar = s } in
      elim asked [
        | nothing ↦ e1
        | open_path path ↦
            if e1.buf.dirty
            then set_message e1 unsaved_edit
            else record (open_file files e1 path) { focus = on_text }
      ]

  unfoldable pub sidebar_parent : Editor → Editor
  sidebar_parent e =
      let (s, ok) = Sidebar.go_parent files e.sidebar in
      let e1 : Editor = record e { sidebar = s } in
      if ok then e1 else set_message e1 "cannot open directory"

  unfoldable pub key_sidebar : Editor → ℕ → Editor
  key_sidebar e c =
      if c == b'j'
      then record e { sidebar = Sidebar.down e.sidebar }
      else if c == b'k'
      then record e { sidebar = Sidebar.up e.sidebar }
      else if c == b'g'
      then record e { sidebar = Sidebar.first e.sidebar }
      else if c == b'G'
      then record e { sidebar = Sidebar.last e.sidebar }
      else if c == b'l' || is_enter c
      then sidebar_activate e
      else if c == b'h' || c == b'-'
      then sidebar_parent e
      else if c == b'r'
      then set_message (sidebar_reload files e) "refreshed"
      else if c == esc_key
      then record e { focus = on_text }
      else if c == b':'
      then start_command (record e { focus = on_text })
      else e

  -- ---------- dispatch ----------

  unfoldable pub dispatch : Mode → Focus → Editor → ℕ → Option Editor
  dispatch command f e c = key_command e c
  dispatch insert f e c = key_insert e c
  dispatch normal on_sidebar e c = some (key_sidebar e c)
  dispatch normal on_text e c = key_normal e c

unfoldable pub other_focus : Focus → Focus
other_focus on_text = on_sidebar
other_focus on_sidebar = on_text

-- Ctrl-B: the sidebar shown or hidden.
unfoldable pub toggle_sidebar : Editor → Editor
toggle_sidebar e =
    let shown = not e.sidebar_visible in
    record e { sidebar_visible = shown; focus = (if shown then e.focus else on_text); coloff = 0 }

unfoldable pub switch_focus : Editor → Editor
unfolding other_focus
switch_focus e = if e.sidebar_visible then record e { focus = other_focus e.focus } else e

unfoldable pub is_normal : Mode → Bool
is_normal normal = true
is_normal insert = false
is_normal command = false

module _ (files : Files) where
  unfoldable pub key : Editor → ℕ → Option Editor
  unfolding is_normal dispatch
  key e c =
      if is_normal e.mode && c == ctrl_b
      then some (toggle_sidebar e)
      else if is_normal e.mode && c == ctrl_e
      then some (switch_focus e)
      else dispatch files e.mode e.focus e c

-- The vim key of a special key.
unfoldable pub special_key : Special → ℕ
special_key up = b'k'
special_key down = b'j'
special_key left = b'h'
special_key right = b'l'
special_key home = b'0'
special_key end_key = b'$'
special_key delete = b'x'

unfoldable pub special_insert : Special → Editor → Option Editor
special_insert up e =
    line e >>= λ l. clamp_cx (if ltb 0 e.cy then record e { cy = e.cy - 1 } else e)
special_insert down e = line e >>= λ l.
    clamp_cx (if ltb (e.cy + 1) (length (lines e)) then record e { cy = e.cy + 1 } else e)
special_insert left e = line e >>= λ l. some (record e { cx = e.cx - 1 })
special_insert right e = line e >>= λ l. some (record e { cx = min (e.cx + 1) (length l) })
special_insert home e = line e >>= λ l. some (record e { cx = 0 })
special_insert end_key e = line e >>= λ l. some (record e { cx = length l })
special_insert delete e = line e >>= λ l. if ltb e.cx (length l) then remove_char e e.cx else some e

module _ (files : Files) where
  unfoldable pub special_by : Mode → Editor → Special → Option Editor
  special_by command e k = some e
  special_by insert e k = special_insert k e
  special_by normal e k = key files e (special_key k)

  -- An arrow, Home, End or Delete.
  unfoldable pub special : Editor → Special → Option Editor
  unfolding special_by special_key
  special e k = special_by e.mode e k
