-- ===== src/Tile/Erase.antt =====
-- What ED and EL of userland/rust/tile/src/vt.rs blank: stretches of the grid, row after row.
use anss_os.Common.{
  List, [], add_u16, ap, arith, if◌then◌else◌, leb, length, ltb, refl, set, some, suc, sym, zero, ℕ,
  ◌&&◌, ◌*◌, ◌+◌, ◌-◌, ◌<◌, ◌==◌, ◌>>=◌, ◌∙◌, ◌∷◌, ◌≡◌, ◌≤◌,
}
use anss_os.Tile.Screen.{
  Vt, Cell, blank, place, set_cell, erase_loop, erase, erase_rows_loop, erase_rows,
}
use anss_os.Tile.Csi.{erase_display, erase_line}
use anss_os.Tile.Valid.{Fits}

-- The cells from place `lo` up to `hi` blanked, of a list that begins at place `k`.
abbrev pub blank_from : ℕ → ℕ → ℕ → List Cell → List Cell
blank_from k lo hi [] = []
blank_from k lo hi (x ∷ xs) =
    (if leb lo k && ltb k hi then blank else x) ∷ blank_from (k + 1) lo hi xs

abbrev pub blanked : ℕ → ℕ → List Cell → List Cell
blanked lo hi = blank_from 0 lo hi

blank_from_none : (k lo hi : ℕ) (xs : List Cell) → hi ≤ lo → blank_from k lo hi xs ≡ xs
blank_from_none k lo hi [] h = refl
blank_from_none k lo hi (x ∷ xs) h = ground (arith, blank_from_none (k + 1) lo hi xs)

blank_from_join :
    (k lo mid hi : ℕ) (xs : List Cell)
    → lo ≤ mid
    → mid ≤ hi
    → blank_from k mid hi (blank_from k lo mid xs) ≡ blank_from k lo hi xs
blank_from_join k lo mid hi [] h h' = refl
blank_from_join k lo mid hi (x ∷ xs) h h' = ground (arith, blank_from_join (k + 1) lo mid hi xs)

blank_past : (k lo hi : ℕ) (xs : List Cell) → hi ≤ k → blank_from k lo hi xs ≡ xs
blank_past k lo hi [] h = refl
blank_past k lo hi (x ∷ xs) h = ground (arith, blank_past (k + 1) lo hi xs)

-- One cell.
set-blank_from :
    (k i j : ℕ) (xs : List Cell) → j ≡ k + i → set xs i blank ≡ blank_from k j (suc j) xs
set-blank_from k i j [] e = refl
set-blank_from k zero j (x ∷ xs) e = ground (arith, blank_past (k + 1) j (suc j) xs)
set-blank_from k (suc i) j (x ∷ xs) e = ground (arith, set-blank_from (k + 1) i j xs)

length-blank_from : (k lo hi : ℕ) (xs : List Cell) → length (blank_from k lo hi xs) ≡ length xs
length-blank_from k lo hi [] = refl
length-blank_from k lo hi (x ∷ xs) = ap suc (length-blank_from (k + 1) lo hi xs)

-- The terminal with those cells blanked, and all else as it was.
abbrev pub blank_cells : Vt → ℕ → ℕ → Vt
blank_cells v lo hi = record v { cells = blanked lo hi v.cells }

blank_cells_join :
    (v : Vt) (lo mid hi : ℕ)
    → lo ≤ mid
    → mid ≤ hi
    → blank_cells (blank_cells v lo mid) mid hi ≡ blank_cells v lo hi
blank_cells_join v lo mid hi h h' =
    ap (λ xs. record v { cells = xs }) (blank_from_join 0 lo mid hi v.cells h h')

set_cell_lem :
    (v : Vt) (x y lo : ℕ)
    → lo ≡ y * v.cols + x
    → lo < length v.cells
    → set_cell v x y blank ≡ some (blank_cells v lo (suc lo))
unfolding set_cell
set_cell_lem v x y lo e h =
    ground (arith, set-blank_from 0 (place v x y) lo v.cells, ap (λ k. set v.cells k blank) e)

-- The rounds from column `i` of row `y` blank the places from `lo` up to `hi`.
erase_loop_lem :
    (n i y lo hi : ℕ) (v : Vt)
    → lo ≡ y * v.cols + i
    → hi ≡ lo + n
    → hi ≤ length v.cells
    → erase_loop n v i y ≡ some (blank_cells v lo hi)
unfolding erase_loop
erase_loop_lem zero i y lo hi v el eh h =
    ap (λ xs. some (record v { cells = xs })) (sym (blank_from_none 0 lo hi v.cells (omega arith)))
erase_loop_lem (suc n) i y lo hi v el eh h = rw (set_cell_lem v i y lo el (omega arith)) (
    erase_loop_lem n (i + 1) y (suc lo) hi (blank_cells v lo (suc lo)) (omega arith) (omega arith)
      (omega (arith, length-blank_from 0 lo (suc lo) v.cells))
    ∙ ap some (blank_cells_join v lo (suc lo) hi (omega arith) (omega arith)))

module _ (c r : ℕ) where
  row-le : (y count r x : ℕ) → y < r → x + count ≤ c → y * c + x + count ≤ r * c
  row-le y count r x hy hc = grind arith

  blank_cells-Fits : (v : Vt) (lo hi : ℕ) → Fits c r v → Fits c r (blank_cells v lo hi)
  blank_cells-Fits v lo hi f = ground (arith, length-blank_from 0 lo hi v.cells)

  erase_lem :
      (v : Vt) (x y count lo hi : ℕ)
      → Fits c r v
      → y < r
      → x + count ≤ c
      → lo ≡ y * c + x
      → hi ≡ lo + count
      → erase v x y count ≡ some (blank_cells v lo hi)
  unfolding erase
  erase_lem v x y count lo hi f hy hc el eh =
      erase_loop_lem _ x y lo hi v (rw f.cols_eq el) (omega (arith, f.cols_eq))
        (omega (arith, f.grid, row-le y count r x hy hc))

  erase_rows_loop_lem :
      (n y lo hi : ℕ) (v : Vt)
      → Fits c r v
      → lo ≡ y * c
      → hi ≡ lo + n * c
      → y + n ≤ r
      → erase_rows_loop n v y ≡ some (blank_cells v lo hi)
  unfolding erase_rows_loop
  erase_rows_loop_lem zero y lo hi v f el eh h =
      ap (λ xs. some (record v { cells = xs }))
        (sym (blank_from_none 0 lo hi v.cells (omega arith)))
  erase_rows_loop_lem (suc n) y lo hi v f el eh h =
      rw
        (erase_lem v 0 y v.cols lo (lo + c) f (omega arith) (omega (arith, f.cols_eq)) (omega arith)
          (omega (arith, f.cols_eq)))
        (erase_rows_loop_lem n (y + 1) (lo + c) hi (blank_cells v lo (lo + c))
            (blank_cells-Fits v lo (lo + c) f) (grind arith) (grind arith) (omega arith)
          ∙ ap some (blank_cells_join v lo (lo + c) hi (omega arith) (grind arith)))

  erase_rows_lem :
      (v : Vt) (from to lo hi : ℕ)
      → Fits c r v
      → from ≤ to
      → to ≤ r
      → lo ≡ from * c
      → hi ≡ to * c
      → erase_rows v from to ≡ some (blank_cells v lo hi)
  unfolding erase_rows
  erase_rows_lem v from to lo hi f hf ht el eh =
      erase_rows_loop_lem (to - from) from lo hi v f el ends (omega arith)
    where
      apart : to ≡ from + (to - from)
      apart = omega arith

      ends : hi ≡ lo + (to - from) * c
      ends = omega (arith, ap (λ (t : ℕ). t * c) apart)

  -- The two stretches of ED 1, and those of ED 0, are one stretch each.
  erase_above_lem :
      (v : Vt)
      → Fits c r v
      → (erase_rows v 0 v.cy >>= λ v1. erase v1 0 v1.cy (add_u16 v1.cx 1))
        ≡ some (blank_cells v 0 (suc (v.cy * c + v.cx)))
  erase_above_lem v f =
      rw (erase_rows_lem v 0 v.cy 0 (v.cy * c) f (omega arith) (omega arith) (omega arith) refl) (
        erase_lem (blank_cells v 0 (v.cy * c)) 0 v.cy (add_u16 v.cx 1) (v.cy * c)
          (suc (v.cy * c + v.cx)) (blank_cells-Fits v 0 (v.cy * c) f) f.cy_in (omega arith)
          (omega arith) (omega arith)
        ∙ ap some
            (blank_cells_join v 0 (v.cy * c) (suc (v.cy * c + v.cx)) (omega arith) (omega arith)))

  erase_below_lem :
      (v : Vt)
      → Fits c r v
      → (erase v v.cx v.cy (v.cols - v.cx) >>= λ v1. erase_rows v1 (add_u16 v1.cy 1) v.rows)
        ≡ some (blank_cells v (v.cy * c + v.cx) (r * c))
  erase_below_lem v f =
      rw
        (erase_lem v v.cx v.cy (v.cols - v.cx) (v.cy * c + v.cx) ((v.cy + 1) * c) f f.cy_in
          (omega arith) refl (omega (arith, ap (λ (t : ℕ). t) f.cols_eq)))
        (erase_rows_lem (blank_cells v (v.cy * c + v.cx) ((v.cy + 1) * c)) (add_u16 v.cy 1) v.rows
            ((v.cy + 1) * c) (r * c) (blank_cells-Fits v (v.cy * c + v.cx) ((v.cy + 1) * c) f)
            (omega arith) (omega arith) (ap (λ t. t * c) next) (ap (λ t. t * c) (sym f.rows_eq))
          ∙ ap some
              (blank_cells_join v (v.cy * c + v.cx) ((v.cy + 1) * c) (r * c) (omega arith) below))
    where
      next : v.cy + 1 ≡ add_u16 v.cy 1
      next = omega arith

      below : (v.cy + 1) * c ≤ r * c
      below = grind arith

  -- ED blanks the whole screen (2), all up to the cursor and the cell under it (1), or all from the
  -- cursor on, in the order of reading, and changes nothing else.
  pub erase_display_lem :
      (v : Vt) (p : ℕ)
      → Fits c r v
      → erase_display v p
        ≡ some (
            if p == 2
            then blank_cells v 0 (r * c)
            else if p == 1
            then blank_cells v 0 (suc (v.cy * c + v.cx))
            else blank_cells v (v.cy * c + v.cx) (r * c))
  unfolding erase_display
  erase_display_lem v p f = ground (
    arith,
    erase_rows_lem v 0 v.rows 0 (r * c) f (omega arith) (omega arith) (omega arith)
        (ap (λ t. t * c) (sym f.rows_eq)),
    erase_above_lem v f,
    erase_below_lem v f,
  )

  -- EL blanks the cursor's row (2), the row up to the cursor and the cell under it (1), or the row
  -- from the cursor on, and changes nothing else.
  pub erase_line_lem :
      (v : Vt) (p : ℕ)
      → Fits c r v
      → erase_line v p
        ≡ some (
            if p == 2
            then blank_cells v (v.cy * c) (v.cy * c + c)
            else if p == 1
            then blank_cells v (v.cy * c) (suc (v.cy * c + v.cx))
            else blank_cells v (v.cy * c + v.cx) (v.cy * c + c))
  unfolding erase_line
  erase_line_lem v p f = ground (
    arith,
    erase_lem v 0 v.cy v.cols (v.cy * c) (v.cy * c + c) f,
    erase_lem v 0 v.cy (add_u16 v.cx 1) (v.cy * c) (suc (v.cy * c + v.cx)) f,
    erase_lem v v.cx v.cy (v.cols - v.cx) (v.cy * c + v.cx) (v.cy * c + c) f,
  )
