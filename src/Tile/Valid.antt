-- ===== src/Tile/Valid.antt =====
-- No byte makes the terminal of userland/rust/tile/src/vt.rs panic, and its cursor stays on its grid.
use anss_os.Common.{
  Ensures, Ensures-bind, Ensures-some, List, [], add_u16, arith, bit_and, bit_or, drop, get_or,
  length, length-append, length-drop, length-replicate, length-set, max, replicate,
  saturating_add_u16, saturating_mul_u16, some, suc, zero, ℕ, ◌%◌, ◌*◌, ◌++◌, ◌+◌, ◌-◌, ◌<◌, ◌^◌,
  ◌∷◌, ◌≡◌, ◌≤◌,
}
use anss_os.Tile.Screen.{
  Vt, new, max_params, set_cell, erase_loop, erase, erase_rows_loop, erase_rows, scroll_up,
  next_row, advance, put, blank, place, Cell,
}
use anss_os.Tile.Csi.{csi, private_csi, first_param, erase_display, erase_line, select_graphics}
use anss_os.Tile.Feed.{
  utf8_start, utf8_continue, byte_esc, current_param, digit, separator, byte_csi, byte_normal,
  byte_fresh, char_or_mark, dispatch, byte, feed,
}

-- A terminal of `cols` columns and `rows` rows, whose cursor and parameters lie in their arrays.
pub record Fits (cols rows : ℕ) (v : Vt) : Type 0 where
  pub cols_eq : v.cols ≡ cols
  pub rows_eq : v.rows ≡ rows
  pub cols_pos : 0 < cols
  pub rows_pos : 0 < rows
  pub cols_small : cols < 2 ^ 16
  pub rows_small : rows < 2 ^ 16
  pub grid : length v.cells ≡ rows * cols
  pub cx_in : v.cx < cols
  pub cy_in : v.cy < rows
  pub slots : length v.params ≡ max_params
  pub nparams_in : v.nparams ≤ max_params

pub place-lt : (x y c r : ℕ) → x < c → y < r → y * c + x < r * c
place-lt x y c r hx hy = grind arith

module _ (c r : ℕ) where
  set_cell-Fits :
      (v : Vt) (x y : ℕ) (k : Cell)
      → Fits c r v
      → x < c
      → y < r
      → Ensures (Fits c r) (set_cell v x y k)
  unfolding set_cell
  set_cell-Fits v x y k f hx hy =
      ground (arith, place-lt x y c r hx hy, length-set v.cells (place v x y) k)

  erase_loop-Fits :
      (n : ℕ) (v : Vt) (i y : ℕ)
      → Fits c r v
      → i + n ≤ c
      → y < r
      → Ensures (Fits c r) (erase_loop n v i y)
  unfolding erase_loop
  erase_loop-Fits zero v i y f hi hy = f
  erase_loop-Fits (suc n) v i y f hi hy =
      Ensures-bind (Fits c r) (Fits c r) (set_cell v i y blank) _
        (set_cell-Fits v i y blank f (omega arith) hy)
        λ v' f'. erase_loop-Fits n v' (i + 1) y f' (omega arith) hy

  erase-Fits :
      (v : Vt) (x y count : ℕ) → Fits c r v → x ≤ c → y < r → Ensures (Fits c r) (erase v x y count)
  unfolding erase
  erase-Fits v x y count f hx hy = erase_loop-Fits _ v x y f (omega (arith, f.cols_eq)) hy

  erase_rows_loop-Fits :
      (n : ℕ) (v : Vt) (y : ℕ) → Fits c r v → y + n ≤ r → Ensures (Fits c r) (erase_rows_loop n v y)
  unfolding erase_rows_loop
  erase_rows_loop-Fits zero v y f hy = f
  erase_rows_loop-Fits (suc n) v y f hy =
      Ensures-bind (Fits c r) (Fits c r) (erase v 0 y v.cols) _
        (erase-Fits v 0 y v.cols f (omega arith) (omega arith))
        λ v' f'. erase_rows_loop-Fits n v' (y + 1) f' (omega arith)

  erase_rows-Fits :
      (v : Vt) (from to : ℕ)
      → Fits c r v
      → from ≤ r
      → to ≤ r
      → Ensures (Fits c r) (erase_rows v from to)
  unfolding erase_rows
  erase_rows-Fits v from to f hf ht = erase_rows_loop-Fits _ v from f (omega arith)

  scroll_up-length :
      (v : Vt)
      → length v.cells ≡ r * c
      → 0 < r
      → length (drop c v.cells ++ replicate c blank) ≡ r * c
  scroll_up-length v e h = grind (
    arith,
    length-append (drop c v.cells) (replicate c blank),
    length-drop c v.cells,
    length-replicate c blank,
  )

  next_row-Fits : (v : Vt) → Fits c r v → Ensures (Fits c r) (next_row v)
  unfolding next_row scroll_up
  next_row-Fits v f = grind (arith, scroll_up-length v f.grid f.rows_pos)

  advance-Fits : (v : Vt) → Fits c r v → Ensures (Fits c r) (advance v)
  unfolding advance
  advance-Fits v f = ground (arith, next_row-Fits (record v { cx = 0 }))

  put-Fits : (v : Vt) (ch : ℕ) → Fits c r v → Ensures (Fits c r) (put v ch)
  unfolding put
  put-Fits v ch f =
      Ensures-bind (Fits c r) (Fits c r) (set_cell v v.cx v.cy _) advance
        (set_cell-Fits v v.cx v.cy _ f f.cx_in f.cy_in) advance-Fits

  erase_display-Fits : (v : Vt) (p : ℕ) → Fits c r v → Ensures (Fits c r) (erase_display v p)
  unfolding erase_display
  erase_display-Fits v p f = ground (
    arith,
    erase_rows-Fits v 0 v.rows f (omega arith) (omega arith),
    Ensures-bind (Fits c r) (Fits c r) (erase_rows v 0 v.cy) _
        (erase_rows-Fits v 0 v.cy f (omega arith) (omega arith))
        (λ v1 f1. erase-Fits v1 0 v1.cy (add_u16 v1.cx 1) f1 (omega arith) f1.cy_in),
    Ensures-bind (Fits c r) (Fits c r) (erase v v.cx v.cy (v.cols - v.cx)) _
        (erase-Fits v v.cx v.cy (v.cols - v.cx) f (omega arith) f.cy_in)
        (λ v1 f1. erase_rows-Fits v1 (add_u16 v1.cy 1) v.rows f1 (omega arith) (omega arith)),
  )

  erase_line-Fits : (v : Vt) (p : ℕ) → Fits c r v → Ensures (Fits c r) (erase_line v p)
  unfolding erase_line
  erase_line-Fits v p f = ground (
    arith,
    erase-Fits v 0 v.cy v.cols f (omega arith) f.cy_in,
    erase-Fits v 0 v.cy (add_u16 v.cx 1) f (omega arith) f.cy_in,
    erase-Fits v v.cx v.cy (v.cols - v.cx) f (omega arith) f.cy_in,
  )

  csi-Fits : (v : Vt) (fin : ℕ) → Fits c r v → Ensures (Fits c r) (csi v fin)
  unfolding csi select_graphics
  csi-Fits v fin f =
      ground (arith, erase_display-Fits v (first_param v) f, erase_line-Fits v (first_param v) f)

  private_csi-Fits : (v : Vt) (fin : ℕ) → Fits c r v → Fits c r (private_csi v fin)
  unfolding private_csi
  private_csi-Fits v fin f = ground arith

  utf8_start-Fits : (v : Vt) (b : ℕ) → Fits c r v → Ensures (Fits c r) (utf8_start v b)
  unfolding utf8_start
  utf8_start-Fits v b f = ground (arith, put-Fits v b'?' f)

  utf8_continue-Fits : (v : Vt) (b : ℕ) → Fits c r v → Ensures (Fits c r) (utf8_continue v b)
  unfolding utf8_continue
  utf8_continue-Fits v b f = ground (
    arith,
    put-Fits
        (record v {
          utf8_bits = bit_or (v.utf8_bits * 2 ^ 6 % 2 ^ 32) (bit_and b 0x3f);
          utf8_left = v.utf8_left - 1;
        })
        (char_or_mark (bit_or (v.utf8_bits * 2 ^ 6 % 2 ^ 32) (bit_and b 0x3f))),
  )

  byte_esc-Fits : (v : Vt) (b : ℕ) → Fits c r v → Fits c r (byte_esc v b)
  unfolding byte_esc
  byte_esc-Fits v b f = ground (arith, length-replicate {A = ℕ} max_params 0)

  digit-Fits : (v : Vt) (b : ℕ) → Fits c r v → Ensures (Fits c r) (digit v b)
  unfolding digit
  digit-Fits v b f = ground (
    arith,
    length-set v.params (current_param v - 1) (
        saturating_add_u16 (saturating_mul_u16 (get_or v.params (current_param v - 1) 0) 10)
          (b - b'0')),
  )

  byte_csi-Fits : (v : Vt) (b : ℕ) → Fits c r v → Ensures (Fits c r) (byte_csi v b)
  unfolding byte_csi separator
  byte_csi-Fits v b f = ground (arith, digit-Fits v b f, private_csi-Fits v b f, csi-Fits v b f)

  byte_normal-Fits : (v : Vt) (b : ℕ) → Fits c r v → Ensures (Fits c r) (byte_normal v b)
  unfolding byte_normal
  byte_normal-Fits v b f = ground (
    arith,
    next_row-Fits (record v { cx = 0 }),
    set_cell-Fits (record v { cx = v.cx - 1 }) (v.cx - 1) v.cy
        (record { ch = b' '; attr = v.attr }),
    put-Fits v b f,
  )

  byte_fresh-Fits : (v : Vt) (b : ℕ) → Fits c r v → Ensures (Fits c r) (byte_fresh v b)
  unfolding byte_fresh dispatch
  byte_fresh-Fits v b f = ground (
    arith,
    utf8_start-Fits v b f,
    byte_esc-Fits v b f,
    byte_csi-Fits v b f,
    byte_normal-Fits v b f,
  )

  byte-Fits : (v : Vt) (b : ℕ) → Fits c r v → Ensures (Fits c r) (byte v b)
  unfolding byte
  byte-Fits v b f = ground (
    arith,
    utf8_continue-Fits v b f,
    byte_fresh-Fits v b f,
    Ensures-bind (Fits c r) (Fits c r) (put (record v { utf8_left = 0 }) b'?') _
        (put-Fits (record v { utf8_left = 0 }) b'?' (ground arith))
        (λ v1 f1. byte_fresh-Fits v1 b f1),
  )

  feed-Fits : (bs : List ℕ) (v : Vt) → Fits c r v → Ensures (Fits c r) (feed v bs)
  unfolding feed
  feed-Fits [] v f = f
  feed-Fits (b ∷ bs) v f =
      Ensures-bind (Fits c r) (Fits c r) (byte v b) (λ v'. feed v' bs) (byte-Fits v b f)
        (feed-Fits bs)

  -- Whatever bytes a terminal is fed, it does not panic: every cell that it draws or blanks and every
  -- parameter that it stores is in range, and afterwards its size is what it was and its cursor is
  -- on its grid.
  pub feed_total :
      (bs : List ℕ) (v : Vt) → Fits c r v → (v' : Vt) × (feed v bs ≡ some v') × Fits c r v'
  feed_total bs v f = Ensures-some (Fits c r) (feed v bs) (feed-Fits bs v f)

-- A new terminal has the size asked for, at least one cell, and its cursor on its grid.
pub new-Fits :
    (cols rows : ℕ) → cols < 2 ^ 16 → rows < 2 ^ 16 → Fits (max cols 1) (max rows 1) (new cols rows)
unfolding new
new-Fits cols rows hc hr =
    grind (
      arith,
      length-replicate (max cols 1 * max rows 1) blank,
      length-replicate {A = ℕ} max_params 0,
    )
