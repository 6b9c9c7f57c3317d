-- ===== src/Scarf/Unsaved.antt =====
-- Unsaved changes in userland/rust/scarf/src/editor.rs: what can end them, or the session.
use anss_os.Common.{
  Allows, Allows-bind, Bool, Bool-cases, Bytes, Option, Option-cases, [], arith, bytes_eq, c_string,
  codes, false, if◌then◌else◌, inl, inr, is_empty, length, ltb, none, refl, some, strip_prefix, suc,
  true, zero, ℕ, ◌+◌, ◌-◌, ◌>>=◌, ◌≡◌, ◌⊎◌,
}
use Prim.Native.String.{String}
use anss_os.Scarf.Files.{Files, WriteResult, cannot_create, wrote}
use anss_os.Scarf.Buffer
use anss_os.Scarf.Buffer.{Buffer, saved_bytes}
use anss_os.Scarf.Editor.{
  Editor, Mode, normal, insert, command, Focus, on_text, on_sidebar, line, set_line, clamp_cx,
  word_forward, word_back, delete_word, remove_char, insert_char, save, sidebar_reload,
}
use anss_os.Scarf.Keys.{
  write_as, edit_or_write, operator_d, operator_g, key_motion, open_line, key_change, key_plain,
  split_line, without_line, join_lines, backspace, insert_chars, path_command, save_and_quit,
  do_command, run_command, key_command, sidebar_activate, sidebar_parent, key_sidebar,
  start_command, dispatch, toggle_sidebar, switch_focus, key, key_normal, key_insert,
}

-- The changes are still there, and the session goes on.
abbrev pub Kept : Editor → Type 0
Kept e = (e.buf.dirty ≡ true) × (e.quit ≡ false)

after_line :
    (e : Editor) (f : Bytes → Option Editor)
    → ((l : Bytes) → Allows Kept (f l))
    → Allows Kept (line e >>= f)
after_line e f h = Allows-bind (λ l. Unit {0}) Kept (line e) f (all_lines (line e)) (λ l u. h l)
  where
    all_lines : (o : Option Bytes) → Allows (λ l. Unit {0}) o
    all_lines none = tt
    all_lines (some l) = tt

clamp_cx-Kept : (e : Editor) → Kept e → Allows Kept (clamp_cx e)
unfolding clamp_cx
clamp_cx-Kept e k = after_line e _ λ l. k

word_forward-Kept : (e : Editor) → Kept e → Allows Kept (word_forward e)
unfolding word_forward
word_forward-Kept e k = after_line e _ λ l. ground arith

word_back-Kept : (e : Editor) → Kept e → Allows Kept (word_back e)
unfolding word_back
word_back-Kept e k = ground (arith, after_line e, after_line (record e { cy = e.cy - 1 }))

clamped : (m : Option Editor) → Allows Kept m → Allows Kept (m >>= clamp_cx)
clamped m h = Allows-bind Kept Kept m clamp_cx h clamp_cx-Kept

delete_word-Kept : (e : Editor) → Kept e → Allows Kept (delete_word e)
unfolding delete_word set_line
delete_word-Kept e k = after_line e _ λ l. ground arith

remove_char-Kept : (e : Editor) (i : ℕ) → Kept e → Allows Kept (remove_char e i)
unfolding remove_char set_line
remove_char-Kept e i k = after_line e _ λ l. ground arith

insert_char-Kept : (e : Editor) (c : ℕ) → Kept e → Allows Kept (insert_char e c)
unfolding insert_char set_line
insert_char-Kept e c k = after_line e _ λ l. ground arith

delete_line-dirty : (b : Buffer) (i : ℕ) → b.dirty ≡ true → (Buffer.delete_line b i).dirty ≡ true
unfolding Buffer.delete_line
delete_line-dirty b i h = ground arith

operator_d-Kept : (e : Editor) (c : ℕ) → Kept e → Allows Kept (operator_d e c)
unfolding operator_d
operator_d-Kept e c k =
    clamped _ (ground (arith, delete_line-dirty e.buf e.cy k.0, delete_word-Kept e k))

key_motion-Kept : (e : Editor) (c : ℕ) → Kept e → Allows Kept (key_motion e c)
unfolding key_motion
key_motion-Kept e c k = ground (
  arith,
  after_line e (λ l. some (if ltb (e.cx + 1) (length l) then record e { cx = e.cx + 1 } else e))
      (λ l. ground arith),
  after_line e (λ l. some (record e { cx = length l - 1 })) (λ l. k),
  clamp_cx-Kept (record e { cy = e.cy + 1 }) k,
  clamp_cx-Kept (record e { cy = e.cy - 1 }) k,
  clamp_cx-Kept (record e { cy = length e.buf.lines - 1 }) k,
  clamped (word_forward e) (word_forward-Kept e k),
  clamped (word_back e) (word_back-Kept e k),
)

open_line-Kept : (e : Editor) (at : ℕ) → Kept e → Allows Kept (open_line e at)
unfolding open_line Buffer.insert_line
open_line-Kept e at k = ground arith

key_change-Kept : (e : Editor) (c : ℕ) → Kept e → Allows Kept (key_change e c)
unfolding key_change start_command
key_change-Kept e c k = ground (
  arith,
  after_line e (λ l. (if ltb e.cx (length l) then remove_char e e.cx else some e) >>= clamp_cx)
      (λ l. clamped _ (ground (arith, remove_char-Kept e e.cx k))),
  after_line e
      (λ l. some (record e { cx = (if is_empty l then e.cx else e.cx + 1); mode = insert }))
      (λ l. k),
  after_line e (λ l. some (record e { cx = length l; mode = insert })) (λ l. k),
  open_line-Kept e (e.cy + 1) k,
  open_line-Kept e e.cy k,
)

key_normal-Kept : (e : Editor) (c : ℕ) → Kept e → Allows Kept (key_normal e c)
unfolding key_normal key_plain operator_g
key_normal-Kept e c k = ground (
  arith,
  key_motion-Kept (record e { pending = none }) c k,
  key_change-Kept (record e { pending = none }) c k,
  operator_d-Kept (record e { pending = none }) c k,
)

split_line-Kept : (e : Editor) → Kept e → Allows Kept (split_line e)
unfolding split_line set_line Buffer.insert_line
split_line-Kept e k = after_line e _ λ l. ground arith

join_lines-Kept : (e : Editor) → Kept e → Allows Kept (join_lines e)
unfolding join_lines without_line set_line
join_lines-Kept e k = after_line e _ λ l. after_line (without_line e) _ λ before. ground arith

insert_chars-Kept : (n : ℕ) (e : Editor) (c : ℕ) → Kept e → Allows Kept (insert_chars n e c)
unfolding insert_chars
insert_chars-Kept zero e c k = k
insert_chars-Kept (suc n) e c k =
    Allows-bind Kept Kept (insert_char e c) (λ e'. insert_chars n e' c) (insert_char-Kept e c k)
      (λ e' k'. insert_chars-Kept n e' c k')

key_insert-Kept : (e : Editor) (c : ℕ) → Kept e → Allows Kept (key_insert e c)
unfolding key_insert backspace
key_insert-Kept e c k = ground (
  arith,
  clamp_cx-Kept (record e { mode = normal; cx = e.cx - 1 }) k,
  split_line-Kept e k,
  remove_char-Kept (record e { cx = e.cx - 1 }) (e.cx - 1) k,
  join_lines-Kept e k,
  insert_chars-Kept 4 e b' ' k,
  insert_char-Kept e c k,
)

clamped_same : (e : Editor) → Allows (λ e'. (e'.buf ≡ e.buf) × (e'.quit ≡ e.quit)) (clamp_cx e)
unfolding clamp_cx
clamped_same e = ground arith

-- The commands that say to discard: `q!`, and `e!` with a path.
abbrev pub IsForced : Bytes → Type 0
IsForced cmd =
    (bytes_eq cmd (codes "q!") ≡ true)
    ⊎ ((path : Bytes) × (strip_prefix (codes "e! ") cmd ≡ some path))

-- The text is as it was and is not counted as changed any more, and the file system has accepted it.
abbrev pub Saved : Files → Editor → Editor → Type 0
Saved files e e' =
    (e'.buf.lines ≡ e.buf.lines)
    × (e'.buf.dirty ≡ false)
    × ((path : Bytes) × (files.write_all path (saved_bytes e.buf.lines) ≡ wrote true))

abbrev pub Guarded : Files → Editor → Editor → Type 0
Guarded files e e' = IsForced e.cmd ⊎ Kept e' ⊎ Saved files e e'

-- What `Buffer::save` comes to.
abbrev Outcome : Files → Buffer → Buffer × Bool × String → Type 0
Outcome files b r =
    (r.1 ≡ false) × (r.0 ≡ b)
    ⊎ (r.1 ≡ true)
      × (r.0 ≡ record b { dirty = false })
      × ((path : Bytes) × (files.write_all path (saved_bytes b.lines) ≡ wrote true))

written :
    (files : Files) (b : Buffer) (path : Bytes) (w : WriteResult)
    → files.write_all path (saved_bytes b.lines) ≡ w
    → Outcome files b (Buffer.after_write b w)
unfolding Buffer.after_write
written files b path cannot_create e = inl (refl, refl)
written files b path (wrote false) e = inl (refl, refl)
written files b path (wrote true) e = inr (refl, refl, (path, e))

save-Outcome : (files : Files) (b : Buffer) → Outcome files b (Buffer.save files b)
unfolding Buffer.save
save-Outcome files b = elim (Bool-cases (is_empty b.filename)) [
  | inl unnamed ↦ rw unnamed (inl (refl, refl))
  | inr named ↦ rw named (elim (Option-cases (c_string b.filename)) [
    | inl none_such ↦ rw none_such (inl (refl, refl))
    | inr (path, found) ↦ rw found (written files b path _ refl)
  ])
]

module _ (files : Files) where
  save-Guarded :
      (e : Editor)
      → Kept e
      → let (e', ok) = save files e in ((ok ≡ false) × Kept e') ⊎ Saved files e e'
  unfolding save sidebar_reload
  save-Guarded e k = ground (arith, save-Outcome files e.buf)

  key_sidebar-Kept : (e : Editor) (c : ℕ) → Kept e → Kept (key_sidebar files e c)
  unfolding key_sidebar sidebar_activate sidebar_parent sidebar_reload start_command
  key_sidebar-Kept e c k = ground arith

  write_as-Guarded :
      (e : Editor) (cmd : Bytes)
      → Kept e
      → Kept (write_as files e cmd) ⊎ Saved files e (write_as files e cmd)
  write_as-Guarded e cmd k = elim (Option-cases (strip_prefix (codes "w ") cmd)) [
    | inl none_such ↦ unfold write_as in rw (none_such, write_as) (inl k)
    | inr (path, found) ↦
        unfold write_as in
        rw (found, write_as)
          (ground (arith, save-Guarded (record e { buf = record e.buf { filename = path } }) k))
  ]

  edit_or_write-Guarded :
      (e : Editor) (cmd : Bytes)
      → Kept e
      → Kept (edit_or_write files e cmd) ⊎ Saved files e (edit_or_write files e cmd)
  unfolding edit_or_write
  edit_or_write-Guarded e cmd k = ground (arith, write_as-Guarded e cmd k)

  path_command-Guarded :
      (e : Editor) (cmd : Bytes)
      → Kept e
      → IsForced cmd ⊎ Kept (path_command files e cmd) ⊎ Saved files e (path_command files e cmd)
  path_command-Guarded e cmd k = elim (Option-cases (strip_prefix (codes "e! ") cmd)) [
    | inl plain ↦
        unfold path_command in rw (plain, path_command) (inr (edit_or_write-Guarded e cmd k))
    | inr forced ↦ inl (inr forced)
  ]

  do_command-Guarded :
      (e : Editor) (cmd : Bytes)
      → Kept e
      → IsForced cmd ⊎ Kept (do_command files e cmd) ⊎ Saved files e (do_command files e cmd)
  unfolding do_command save_and_quit
  do_command-Guarded e cmd k = ground (arith, save-Guarded e k, path_command-Guarded e cmd k)

  run_command-Guarded : (e : Editor) → Kept e → Allows (Guarded files e) (run_command files e)
  unfolding run_command
  run_command-Guarded e k = ground (
    arith,
    do_command-Guarded (record e { cmd = []; mode = normal }) e.cmd k,
    clamped_same (do_command files (record e { cmd = []; mode = normal }) e.cmd),
  )

  key_command-Guarded :
      (e : Editor) (c : ℕ) → Kept e → Allows (Guarded files e) (key_command files e c)
  unfolding key_command
  key_command-Guarded e c k = ground (arith, run_command-Guarded e k)

  kept : (e : Editor) (m : Option Editor) → Allows Kept m → Allows (Guarded files e) m
  kept e none k = k
  kept e (some e') k = inr (inl k)

  dispatch-Guarded :
      (m : Mode) (f : Focus) (e : Editor) (c : ℕ)
      → Kept e
      → Allows (Guarded files e) (dispatch files m f e c)
  unfolding dispatch
  dispatch-Guarded command f e c k = key_command-Guarded e c k
  dispatch-Guarded insert f e c k = kept e (key_insert e c) (key_insert-Kept e c k)
  dispatch-Guarded normal on_sidebar e c k = inr (inl (key_sidebar-Kept e c k))
  dispatch-Guarded normal on_text e c k = kept e (key_normal e c) (key_normal-Kept e c k)

  -- While the text has changes that are not saved, a key either leaves them unsaved and the session
  -- going on, or the file system has accepted the text as it is, or the command typed so far says to discard them.
  pub key_keeps_changes :
      (e : Editor) (c : ℕ)
      → e.buf.dirty ≡ true
      → e.quit ≡ false
      → Allows (Guarded files e) (key files e c)
  unfolding key toggle_sidebar switch_focus
  key_keeps_changes e c d q = ground (arith, dispatch-Guarded e.mode e.focus e c (d, q))
