-- ===== src/Tile/Screen.antt =====
-- userland/rust/tile/src/vt.rs: the grid of cells, and what draws, erases and scrolls.
use anss_os.Common.{
  Bool, List, Option, add_u16, check, drop, false, get_elem?, if◌then◌else◌, leb, length, ltb, max,
  min, none, replicate, set, some, suc, true, zero, ℕ, ◌*◌, ◌++◌, ◌+◌, ◌-◌, ◌>>=◌,
}

-- `struct Attr`: palette indices, `none` for the default color.
pub record Attr : Type 0 where
  pub fg : Option ℕ
  pub bg : Option ℕ
  pub bold : Bool
  pub dim : Bool
  pub rev : Bool

abbrev pub plain : Attr
plain = record { fg = none; bg = none; bold = false; dim = false; rev = false }

pub record Cell : Type 0 where
  pub ch : ℕ
  pub attr : Attr

abbrev pub blank : Cell
blank = record { ch = b' '; attr = plain }

abbrev pub max_params : ℕ
max_params = 8

pub data State : Type 0 where
  normal esc csi : State

-- `struct Vt`; the pair `utf8` is the two fields `utf8_bits` and `utf8_left`.
pub record Vt : Type 0 where
  pub cols : ℕ
  pub rows : ℕ
  pub cells : List Cell
  pub cx : ℕ
  pub cy : ℕ
  pub attr : Attr
  pub cursor_visible : Bool
  pub state : State
  pub utf8_bits : ℕ
  pub utf8_left : ℕ
  pub params : List ℕ
  pub nparams : ℕ
  pub private : Bool

unfoldable pub new : ℕ → ℕ → Vt
new c r =
    let cols = max c 1 in
    let rows = max r 1 in
    record {
      cols = cols;
      rows = rows;
      cells = replicate (cols * rows) blank;
      cx = 0;
      cy = 0;
      attr = plain;
      cursor_visible = true;
      state = normal;
      utf8_bits = 0;
      utf8_left = 0;
      params = replicate max_params 0;
      nparams = 0;
      private = false;
    }

-- The place of a cell in `cells`.
abbrev pub place : Vt → ℕ → ℕ → ℕ
place v x y = y * v.cols + x

-- `none` where the index is out of bounds.
unfoldable pub cell : Vt → ℕ → ℕ → Option Cell
cell v x y = get_elem? v.cells (place v x y)

-- `fn set`
unfoldable pub set_cell : Vt → ℕ → ℕ → Cell → Option Vt
set_cell v x y c =
    let i = place v x y in check (ltb i (length v.cells)) (record v { cells = set v.cells i c })

-- The rounds left of `for i in x..(x + count).min(self.cols)`, from column `i` on.
unfoldable pub erase_loop : ℕ → Vt → ℕ → ℕ → Option Vt
erase_loop zero v i y = some v
erase_loop (suc n) v i y = set_cell v i y blank >>= λ v'. erase_loop n v' (i + 1) y

unfoldable pub erase : Vt → ℕ → ℕ → ℕ → Option Vt
erase v x y count = erase_loop (min (add_u16 x count) v.cols - x) v x y

-- The rounds left of `for y in from..to`.
unfoldable pub erase_rows_loop : ℕ → Vt → ℕ → Option Vt
erase_rows_loop zero v y = some v
erase_rows_loop (suc n) v y = erase v 0 y v.cols >>= λ v'. erase_rows_loop n v' (y + 1)

unfoldable pub erase_rows : Vt → ℕ → ℕ → Option Vt
erase_rows v from to = erase_rows_loop (to - from) v from

-- `drain(..cols)` panics on a shorter vector.
unfoldable pub scroll_up : Vt → Option Vt
scroll_up v =
    check (leb v.cols (length v.cells))
      (record v { cells = drop v.cols v.cells ++ replicate v.cols blank })

unfoldable pub next_row : Vt → Option Vt
next_row v =
    let v1 : Vt = record v { cy = add_u16 v.cy 1 } in
    if leb v1.rows v1.cy
    then (scroll_up v1 >>= λ v2. some (record v2 { cy = v2.rows - 1 }))
    else some v1

-- After drawing: one column on, wrapping at once.
unfoldable pub advance : Vt → Option Vt
advance v =
    let v1 : Vt = record v { cx = add_u16 v.cx 1 } in
    if leb v1.cols v1.cx then next_row (record v1 { cx = 0 }) else some v1

unfoldable pub put : Vt → ℕ → Option Vt
put v ch = set_cell v v.cx v.cy (record { ch = ch; attr = v.attr }) >>= advance
