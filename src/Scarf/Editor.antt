-- ===== src/Scarf/Editor.antt =====
-- userland/rust/scarf/src/editor.rs: the editor's state, the cursor, and the word motions.
use Prim.Native.String.{String}
use anss_os.Common.{
  Bool, Bytes, List, Option, [], check, drop, false, get_elem?, get_or, if◌then◌else◌, insert_at,
  leb, length, ltb, max, min, none, not, remove, set, some, suc, take, true, zero, ℕ, ◌&&◌, ◌++◌,
  ◌+◌, ◌-◌, ◌==◌, ◌>>=◌, ◌||◌, ◌∷◌,
}
use anss_os.Scarf.Files.{Files}
use anss_os.Scarf.Buffer
use anss_os.Scarf.Buffer.{Buffer}
use anss_os.Scarf.Sidebar
use anss_os.Scarf.Sidebar.{Sidebar}

-- Key codes.
abbrev pub ctrl_b : ℕ
ctrl_b = 0x02

abbrev pub ctrl_e : ℕ
ctrl_e = 0x05

abbrev pub esc_key : ℕ
esc_key = 0x1b

abbrev pub tab_stop : ℕ
tab_stop = 4

abbrev pub cmd_max : ℕ
cmd_max = 127

-- `enum Special`; `end_key` is `End`.
pub data Special : Type 0 where
  up down left right home end_key delete : Special

pub data Mode : Type 0 where
  normal insert command : Mode

pub data Focus : Type 0 where
  on_text on_sidebar : Focus

pub record Editor : Type 0 where
  pub buf : Buffer
  pub cx : ℕ
  pub cy : ℕ
  pub rowoff : ℕ
  pub coloff : ℕ
  pub mode : Mode
  pub focus : Focus
  pub sidebar : Sidebar
  pub sidebar_visible : Bool
  pub message : String
  pub cmd : Bytes
  pub pending : Option ℕ
  pub quit : Bool

unfoldable pub is_word : ℕ → Bool
is_word c =
    (leb b'0' c && leb c b'9')
    || (leb b'A' c && leb c b'Z')
    || (leb b'a' c && leb c b'z')
    || c == b'_'

abbrev pub is_enter : ℕ → Bool
is_enter c = c == b'\r' || c == b'\n'

abbrev pub is_backspace : ℕ → Bool
is_backspace c = c == 0x08 || c == 0x7f

abbrev pub is_printable : ℕ → Bool
is_printable c = leb 32 c && ltb c 127

unfoldable pub new : Bytes → Editor
new cwd = record {
  buf = Buffer.new;
  cx = 0;
  cy = 0;
  rowoff = 0;
  coloff = 0;
  mode = normal;
  focus = on_sidebar;
  sidebar = Sidebar.new cwd;
  sidebar_visible = true;
  message = "";
  cmd = [];
  pending = none;
  quit = false;
}

abbrev pub lines : Editor → List Bytes
lines e = e.buf.lines

-- `line`: a panic where the cursor's row is no line.
abbrev pub line : Editor → Option Bytes
line e = get_elem? e.buf.lines e.cy

-- A change made through `line_mut`, which marks the buffer as changed.
unfoldable pub set_line : Editor → Bytes → Editor
set_line e l = record e { buf = record e.buf { lines = set e.buf.lines e.cy l; dirty = true } }

abbrev pub set_message : Editor → String → Editor
set_message e msg = record e { message = msg }

module _ (files : Files) where
  unfoldable pub open_file : Editor → Bytes → Editor
  open_file e path =
      let (b, msg) = Buffer.open_file files path in
      record e { buf = b; message = msg; cx = 0; cy = 0; rowoff = 0; coloff = 0 }

  unfoldable pub sidebar_reload : Editor → Editor
  sidebar_reload e =
      let (s, ok) = Sidebar.load files e.sidebar in
      let s1 : Sidebar = record s { sel = min e.sidebar.sel (length s.entries - 1) } in
      record e { sidebar = s1; message = (if ok then e.message else "cannot open directory") }

  unfoldable pub save : Editor → Editor × Bool
  save e =
      let (b, ok, msg) = Buffer.save files e.buf in
      let e1 : Editor = record e { buf = b } in
      if ok then (set_message (sidebar_reload e1) msg, true) else (set_message e1 msg, false)

-- Keeps the viewport around the cursor.
unfoldable pub scroll : Editor → ℕ → ℕ → Editor
scroll e height width =
    let rows = max height 1 in
    let cols = max width 1 in
    let e1 : Editor = (if ltb e.cy e.rowoff then record e { rowoff = e.cy } else e) in
    let e2 : Editor =
      (if leb (e1.rowoff + rows) e1.cy then record e1 { rowoff = e1.cy + 1 - rows } else e1) in
    let e3 : Editor = (if ltb e2.cx e2.coloff then record e2 { coloff = e2.cx } else e2) in
    if leb (e3.coloff + cols) e3.cx then record e3 { coloff = e3.cx + 1 - cols } else e3

is_insert : Mode → Bool
is_insert insert = true
is_insert normal = false
is_insert command = false

-- The last column that the cursor may stand on.
unfoldable pub max_cx : Mode → ℕ → ℕ
unfolding is_insert
max_cx mode len = if not (is_insert mode) && ltb 0 len then len - 1 else len

unfoldable pub clamp_cx : Editor → Option Editor
clamp_cx e = line e >>= λ l. some (record e { cx = min e.cx (max_cx e.mode (length l)) })

-- `while i < line.len() && p(line[i]) { i += 1 }` over what is left of the line from `i` on.
unfoldable pub skip_while : (ℕ → Bool) → Bytes → ℕ → ℕ
skip_while p [] i = i
skip_while p (x ∷ xs) i = if p x then skip_while p xs (i + 1) else i

-- The start of the next word, past the end of this one.
unfoldable pub next_word : Bytes → ℕ → ℕ
next_word l i =
    let j = skip_while is_word (drop i l) i in skip_while (λ c. not (is_word c)) (drop j l) j

unfoldable pub word_forward : Editor → Option Editor
word_forward e = line e >>= λ l.
    let i = next_word l e.cx in
    some (
      if leb (length l) i && ltb (e.cy + 1) (length (lines e))
      then record e { cx = 0; cy = e.cy + 1 }
      else record e { cx = i })

-- `while i > 0 && !is_word(line[i]) { i -= 1 }`
unfoldable pub back_to_word : Bytes → ℕ → ℕ
back_to_word l zero = zero
back_to_word l (suc i) = if is_word (get_or l (suc i) 0) then suc i else back_to_word l i

-- `while i > 0 && is_word(line[i - 1]) { i -= 1 }`
unfoldable pub back_over_word : Bytes → ℕ → ℕ
back_over_word l zero = zero
back_over_word l (suc i) = if is_word (get_or l i 0) then back_over_word l i else suc i

unfoldable pub word_back : Editor → Option Editor
word_back e =
    if e.cx == 0
    then (if ltb 0 e.cy
        then (let e1 : Editor = record e { cy = e.cy - 1 } in
            line e1 >>= λ l. some (record e1 { cx = length l - 1 }))
        else some e)
    else (line e >>= λ l.
        -- The first read of the loop is the one that can be out of range.
        check (e.cx - 1 == 0 || ltb (e.cx - 1) (length l))
          (record e { cx = back_over_word l (back_to_word l (e.cx - 1)) }))

unfoldable pub delete_word : Editor → Option Editor
delete_word e = line e >>= λ l.
    let end = next_word l e.cx in
    if leb (length l) e.cx
    then some e
    -- `drain(cx..end)`
    else some (set_line e (take e.cx l ++ drop end l))

-- `remove(i)` on the cursor's line.
unfoldable pub remove_char : Editor → ℕ → Option Editor
remove_char e i = line e >>= λ l. check (ltb i (length l)) (set_line e (remove l i))

unfoldable pub insert_char : Editor → ℕ → Option Editor
insert_char e c = line e >>= λ l.
    check (leb e.cx (length l)) (record (set_line e (insert_at l e.cx c)) { cx = e.cx + 1 })
