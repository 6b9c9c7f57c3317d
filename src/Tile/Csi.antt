-- ===== src/Tile/Csi.antt =====
-- userland/rust/tile/src/vt.rs: the control sequences `ESC [ ...`.
use anss_os.Common.{
  Bool, List, Option, [], add_u16, false, get_or, if◌then◌else◌, leb, ltb, min, none,
  saturating_add_u16, some, take, true, ℕ, ◌&&◌, ◌+◌, ◌-◌, ◌==◌, ◌>>=◌, ◌||◌, ◌∷◌,
}
use anss_os.Tile.Screen.{Attr, plain, Vt, erase, erase_rows}

-- Parameter `n`, or `fallback` if it was omitted or 0. A read past `nparams` is not made.
unfoldable pub param_or : Vt → ℕ → ℕ → ℕ
param_or v n fallback =
    if leb v.nparams n || get_or v.params n 0 == 0 then fallback else get_or v.params n 0

-- `if self.nparams > 0 { self.params[0] } else { 0 }`
unfoldable pub first_param : Vt → ℕ
first_param v = if ltb 0 v.nparams then get_or v.params 0 0 else 0

unfoldable pub in_range : ℕ → ℕ → ℕ → Bool
in_range lo hi p = leb lo p && leb p hi

-- One parameter of SGR.
unfoldable pub sgr_one : Attr → ℕ → Attr
sgr_one a p =
    if p == 0
    then plain
    else if p == 1
    then record a { bold = true }
    else if p == 2
    then record a { dim = true }
    else if p == 7
    then record a { rev = true }
    else if p == 22
    then record a { bold = false; dim = false }
    else if p == 27
    then record a { rev = false }
    else if in_range 30 37 p
    then record a { fg = some (p - 30) }
    else if p == 39
    then record a { fg = none }
    else if in_range 40 47 p
    then record a { bg = some (p - 40) }
    else if p == 49
    then record a { bg = none }
    else if in_range 90 97 p
    then record a { fg = some (p - 90 + 8) }
    else if in_range 100 107 p
    then record a { bg = some (p - 100 + 8) }
    else a

unfoldable pub sgr : Attr → List ℕ → Attr
sgr a [] = a
sgr a (p ∷ ps) = sgr (sgr_one a p) ps

-- ED: what `J` erases, by its first parameter.
unfoldable pub erase_display : Vt → ℕ → Option Vt
erase_display v p =
    if p == 2
    then erase_rows v 0 v.rows
    else if p == 1
    then (erase_rows v 0 v.cy >>= λ v1. erase v1 0 v1.cy (add_u16 v1.cx 1))
    else (erase v v.cx v.cy (v.cols - v.cx) >>= λ v1. erase_rows v1 (add_u16 v1.cy 1) v.rows)

-- EL: what `K` erases.
unfoldable pub erase_line : Vt → ℕ → Option Vt
erase_line v p =
    if p == 2
    then erase v 0 v.cy v.cols
    else if p == 1
    then erase v 0 v.cy (add_u16 v.cx 1)
    else erase v v.cx v.cy (v.cols - v.cx)

unfoldable pub select_graphics : Vt → Vt
select_graphics v = record v {
  attr = sgr (if v.nparams == 0 then plain else v.attr) (take v.nparams v.params);
}

-- `fin` is the final byte.
unfoldable pub csi : Vt → ℕ → Option Vt
csi v fin =
    if fin == b'H' || fin == b'f'
    then some (record v {
      cy = min (param_or v 0 1 - 1) (v.rows - 1);
      cx = min (param_or v 1 1 - 1) (v.cols - 1);
    })
    else if fin == b'A'
    then some (record v { cy = v.cy - param_or v 0 1 })
    else if fin == b'B'
    then some (record v { cy = min (saturating_add_u16 v.cy (param_or v 0 1)) (v.rows - 1) })
    else if fin == b'C'
    then some (record v { cx = min (saturating_add_u16 v.cx (param_or v 0 1)) (v.cols - 1) })
    else if fin == b'D'
    then some (record v { cx = v.cx - param_or v 0 1 })
    else if fin == b'J'
    then erase_display v (first_param v)
    else if fin == b'K'
    then erase_line v (first_param v)
    else if fin == b'm'
    then some (select_graphics v)
    else some v

unfoldable pub private_csi : Vt → ℕ → Vt
private_csi v fin =
    if ltb 0 v.nparams && get_or v.params 0 0 == 25
    then (if fin == b'h'
        then record v { cursor_visible = true }
        else if fin == b'l'
        then record v { cursor_visible = false }
        else v)
    else v
