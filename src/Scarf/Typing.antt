-- ===== src/Scarf/Typing.antt =====
-- Every key leaves the cursor on the text: userland/rust/scarf/src/editor.rs, key by key.
use anss_os.Common.{
  length-ne_zero, Bytes, Ensures, Ensures-bind, Ensures-mono, List, Option, [], arith, drop,
  if◌then◌else◌, insert_at, is_empty, length, length-append, length-insert_at, length-remove,
  length-set, length-ne_zero, ltb, none, remove, set, some, suc, take, zero, ℕ, ◌++◌, ◌+◌, ◌-◌, ◌<◌,
  ◌>>=◌, ◌∷◌, ◌≡◌, ◌≤◌,
}
use anss_os.Scarf.Buffer
use anss_os.Scarf.Buffer.{Buffer}
use anss_os.Scarf.Editor.{
  Editor, normal, insert, lines, line, set_line, clamp_cx, word_forward, word_back, remove_char,
  insert_char, tab_stop,
}
use anss_os.Scarf.Keys.{
  start_command, operator_d, operator_g, key_motion, open_line, key_change, key_plain, key_normal,
  split_line, without_line, join_lines, backspace, insert_chars, key_insert,
}
use anss_os.Scarf.Cursor.{
  OnText, OnRow, line_length, line_cases, line_length-set, clamp_cx-OnText, word_forward-row,
  word_back-row, delete_word-row, OnText-row, limit_bounds,
}

clamped : (m : Option Editor) → Ensures OnRow m → Ensures OnText (m >>= clamp_cx)
clamped m h = Ensures-bind OnRow OnText m clamp_cx h clamp_cx-OnText

key_motion-OnText :
    (e : Editor) (c : ℕ) → OnText e → e.mode ≡ normal → Ensures OnText (key_motion e c)
unfolding key_motion
key_motion-OnText e c t m = ground (
  arith,
  limit_bounds e.mode (line_length (lines e) e.cy),
  line_cases OnText e
      (λ l. some (if ltb (e.cx + 1) (length l) then record e { cx = e.cx + 1 } else e)) t.row_in
      (λ l len found. ground arith),
  clamp_cx-OnText (record e { cy = e.cy + 1 }),
  clamp_cx-OnText (record e { cy = e.cy - 1 }),
  line_cases OnText e (λ l. some (record e { cx = length l - 1 })) t.row_in
      (λ l len found. ground arith),
  clamped (word_forward e) (word_forward-row e t),
  clamped (word_back e) (word_back-row e t),
  clamp_cx-OnText (record e { cy = length (lines e) - 1 }),
)

pub at_least_one-pos : (ls : List Bytes) → 0 < length (Buffer.at_least_one ls)
unfolding Buffer.at_least_one
at_least_one-pos [] = omega arith
at_least_one-pos (l ∷ ls) = omega arith

delete_line-pos : (b : Buffer) (i : ℕ) → 0 < length (Buffer.delete_line b i).lines
unfolding Buffer.delete_line
delete_line-pos b i = at_least_one-pos _

operator_d-OnText : (e : Editor) (c : ℕ) → OnText e → Ensures OnText (operator_d e c)
unfolding operator_d
operator_d-OnText e c t =
    clamped _ (ground (arith, delete_line-pos e.buf e.cy, delete_word-row e t))

operator_g-OnText : (e : Editor) (c : ℕ) → OnText e → OnText (operator_g e c)
unfolding operator_g
operator_g-OnText e c t = ground arith

open_line-OnText : (e : Editor) (at : ℕ) → at ≤ length (lines e) → Ensures OnText (open_line e at)
unfolding open_line Buffer.insert_line
open_line-OnText e at h = ground (arith, length-insert_at (lines e) at [])

remove_char-row :
    (e : Editor) (i : ℕ)
    → OnRow e
    → i < line_length (lines e) e.cy
    → Ensures OnRow (remove_char e i)
unfolding remove_char set_line
remove_char-row e i r h =
    line_cases OnRow e _ r λ l len found. ground (arith, length-set (lines e) e.cy (remove l i))

key_x-OnText :
    (e : Editor)
    → OnText e
    → Ensures OnText
        (line e >>= λ l. (if ltb e.cx (length l) then remove_char e e.cx else some e) >>= clamp_cx)
key_x-OnText e t =
    line_cases OnText e _ t.row_in
      λ l len found. clamped _ (ground (arith, remove_char-row e e.cx t.row_in))

key_change-OnText :
    (e : Editor) (c : ℕ) → OnText e → e.mode ≡ normal → Ensures OnText (key_change e c)
unfolding key_change start_command
key_change-OnText e c t m = ground (
  arith,
  key_x-OnText e t,
  OnText-row e t,
  line_cases OnText e
      (λ l. some (record e { cx = (if is_empty l then e.cx else e.cx + 1); mode = insert }))
      t.row_in (λ l len found. ground (arith, length-ne_zero l)),
  line_cases OnText e (λ l. some (record e { cx = length l; mode = insert })) t.row_in
      (λ l len found. ground arith),
  open_line-OnText e (e.cy + 1) (omega arith),
  open_line-OnText e e.cy (omega arith),
)

key_plain-OnText :
    (e : Editor) (c : ℕ) → OnText e → e.mode ≡ normal → Ensures OnText (key_plain e c)
unfolding key_plain
key_plain-OnText e c t m = ground (arith, key_motion-OnText e c t m, key_change-OnText e c t m)

pub key_normal-OnText :
    (e : Editor) (c : ℕ) → OnText e → e.mode ≡ normal → Ensures OnText (key_normal e c)
unfolding key_normal
key_normal-OnText e c t m = ground (
  arith,
  key_plain-OnText (record e { pending = none }) c,
  operator_d-OnText (record e { pending = none }) c,
  operator_g-OnText (record e { pending = none }) c,
)

-- ---------- insert mode ----------

split_line-OnText : (e : Editor) → OnText e → Ensures OnText (split_line e)
unfolding split_line set_line Buffer.insert_line
split_line-OnText e t = line_cases OnText e _ t.row_in λ l len found. ground (
  arith,
  OnText-row e t,
  length-set (lines e) e.cy (take e.cx l),
  length-insert_at (set (lines e) e.cy (take e.cx l)) (e.cy + 1) (drop e.cx l),
)

remove_before-OnText :
    (e : Editor)
    → OnText e
    → e.mode ≡ insert
    → 0 < e.cx
    → Ensures OnText (remove_char (record e { cx = e.cx - 1 }) (e.cx - 1))
unfolding remove_char set_line
remove_before-OnText e t m h =
    line_cases OnText (record e { cx = e.cx - 1 }) _ t.row_in
      λ l len found. ground (
        arith,
        length-set (lines e) e.cy (remove l (e.cx - 1)),
        line_length-set (lines e) e.cy (remove l (e.cx - 1)),
        length-remove l (e.cx - 1),
      )

join_lines-OnText :
    (e : Editor) → OnText e → e.mode ≡ insert → 0 < e.cy → Ensures OnText (join_lines e)
unfolding join_lines without_line set_line
join_lines-OnText e t m h = line_cases OnText e _ t.row_in λ l len found.
    line_cases OnText (without_line e) _ (omega (arith, length-remove (lines e) e.cy t.row_in))
      λ before blen bfound. ground (
        arith,
        length-remove (lines e) e.cy t.row_in,
        length-set (remove (lines e) e.cy) (e.cy - 1) (before ++ l),
        line_length-set (remove (lines e) e.cy) (e.cy - 1) (before ++ l),
        length-append before l,
      )

backspace-OnText : (e : Editor) → OnText e → e.mode ≡ insert → Ensures OnText (backspace e)
unfolding backspace
backspace-OnText e t m = ground (arith, remove_before-OnText e t m, join_lines-OnText e t m)

insert_char-OnText :
    (e : Editor) (c : ℕ)
    → OnText e
    → e.mode ≡ insert
    → Ensures (λ e'. OnText e' × (e'.mode ≡ insert)) (insert_char e c)
unfolding insert_char set_line
insert_char-OnText e c t m = line_cases _ e _ t.row_in λ l len found. ground (
  arith,
  length-set (lines e) e.cy (insert_at l e.cx c),
  line_length-set (lines e) e.cy (insert_at l e.cx c),
  length-insert_at l e.cx c,
)

insert_chars-OnText :
    (n : ℕ) (e : Editor) (c : ℕ) → OnText e → e.mode ≡ insert → Ensures OnText (insert_chars n e c)
unfolding insert_chars
insert_chars-OnText zero e c t m = t
insert_chars-OnText (suc n) e c t m =
    Ensures-bind _ OnText (insert_char e c) (λ e'. insert_chars n e' c) (insert_char-OnText e c t m)
      λ e' t'. insert_chars-OnText n e' c t'.0 t'.1

pub key_insert-OnText :
    (e : Editor) (c : ℕ) → OnText e → e.mode ≡ insert → Ensures OnText (key_insert e c)
unfolding key_insert
key_insert-OnText e c t m = ground (
  arith,
  clamp_cx-OnText (record e { mode = normal; cx = e.cx - 1 }),
  split_line-OnText e t,
  backspace-OnText e t m,
  insert_chars-OnText tab_stop e b' ' t m,
  Ensures-mono _ OnText (insert_char e c) (insert_char-OnText e c t m) (λ e' t'. t'.0),
)
