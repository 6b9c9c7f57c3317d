-- ===== src/Tile/Print.antt =====
-- Plain text fed to the terminal of userland/rust/tile/src/vt.rs, across the ends of rows.
use anss_os.Common.{
  Ensures, Ensures-bind, Ensures-mono, Ensures-some, List, [], ap, arith, length, length-set, refl,
  set, some, suc, ℕ, ◌*◌, ◌+◌, ◌<◌, ◌∙◌, ◌∷◌, ◌≡◌, ◌≤◌,
}
use native.Mathlib.Decide.{dec_lt}
use anss_os.Tile.Screen.{Vt, Cell, Attr, normal, place, set_cell, next_row, advance, put}
use anss_os.Tile.Feed.{byte_normal, dispatch, byte_fresh, byte, feed}
use anss_os.Tile.Valid.{Fits, place-lt}

abbrev pub IsPrintable : ℕ → Type 0
IsPrintable b = (b' ' ≤ b) × (b ≤ b'~')

abbrev pub AllPrintable : List ℕ → Type 0
AllPrintable [] = Unit
AllPrintable (b ∷ bs) = IsPrintable b × AllPrintable bs

-- The cells of a text in reading order, from a place on.
abbrev pub typed : Attr → List Cell → ℕ → List ℕ → List Cell
typed a cells i [] = cells
typed a cells i (b ∷ bs) = typed a (set cells i (record { ch = b; attr = a })) (i + 1) bs

-- A terminal that is not inside a sequence or a character.
pub record IsIdle (v : Vt) : Type 0 where
  pub plain_state : v.state ≡ normal
  pub no_char : v.utf8_left ≡ 0

byte_printable : (v : Vt) (b : ℕ) → IsIdle v → IsPrintable b → byte v b ≡ put v b
unfolding byte byte_fresh dispatch byte_normal
byte_printable v b idle p = ground arith

-- Where a text leaves the terminal: as typed, the cursor just past it, the rest as it was.
pub record Typed (c r : ℕ) (v : Vt) (bs : List ℕ) (v' : Vt) : Type 0 where
  pub fits : Fits c r v'
  pub idle : IsIdle v'
  pub at : v'.cy * c + v'.cx ≡ v.cy * c + v.cx + length bs
  pub screen : v'.cells ≡ typed v.attr v.cells (v.cy * c + v.cx) bs
  pub same_attr : v'.attr ≡ v.attr

Typed-cons :
    {c r : ℕ} (v v1 v2 : Vt) (b : ℕ) (bs : List ℕ)
    → Typed c r v (b ∷ []) v1
    → Typed c r v1 bs v2
    → Typed c r v (b ∷ bs) v2
Typed-cons {c} v v1 v2 b bs t1 t2 = record {
  fits = t2.fits;
  idle = t2.idle;
  at = omega (arith, t1.at, t2.at);
  screen =
      t2.screen
      ∙ ap (λ a. typed a v1.cells (v1.cy * c + v1.cx) bs) t1.same_attr
      ∙ ap (λ cs. typed v.attr cs (v1.cy * c + v1.cx) bs) t1.screen
      ∙ ap
          (λ i.
            typed v.attr (set v.cells (v.cy * c + v.cx) (record { ch = b; attr = v.attr })) i bs)
          t1.at;
  same_attr = t2.same_attr ∙ t1.same_attr;
}

mul_mono : (a b c : ℕ) → a ≤ b → a * c ≤ b * c
mul_mono a b c h = grind arith

below_last : (y c r : ℕ) → (y + 1) * c < r * c → y + 1 < r
below_last y c r h = elim (dec_lt (y + 1) r) [
  | yes inside ↦ inside
  | no outside ↦ absurd (omega (arith, mul_mono r (y + 1) c (omega arith)))
]

module _ (c r : ℕ) where
  put-Typed :
      (v : Vt) (b : ℕ)
      → Fits c r v
      → IsIdle v
      → suc (v.cy * c + v.cx) < r * c
      → Ensures (Typed c r v (b ∷ [])) (put v b)
  unfolding put set_cell advance next_row
  put-Typed v b f idle h = ground (
    arith,
    place-lt v.cx v.cy c r f.cx_in f.cy_in,
    below_last v.cy c r,
    length-set v.cells (place v v.cx v.cy) (record { ch = b; attr = v.attr }),
    ap (λ k. set v.cells (v.cy * k + v.cx) (record { ch = b; attr = v.attr })) f.cols_eq,
  )

  feed-Typed :
      (bs : List ℕ) (v : Vt)
      → Fits c r v
      → IsIdle v
      → AllPrintable bs
      → v.cy * c + v.cx + length bs < r * c
      → Ensures (Typed c r v bs) (feed v bs)
  unfolding feed
  feed-Typed [] v f idle p h = record {
    fits = f;
    idle = idle;
    at = omega arith;
    screen = refl;
    same_attr = refl;
  }
  feed-Typed (b ∷ bs) v f idle p h = rw (byte_printable v b idle p.0) (
      Ensures-bind (Typed c r v (b ∷ [])) (Typed c r v (b ∷ bs)) (put v b) (λ v'. feed v' bs)
        (put-Typed v b f idle (omega arith))
        λ v1 t1.
          Ensures-mono (Typed c r v1 bs) (Typed c r v (b ∷ bs)) (feed v1 bs)
            (feed-Typed bs v1 t1.fits t1.idle p.1 (omega (arith, t1.at)))
            λ v2 t2. Typed-cons v v1 v2 b bs t1 t2)

  -- Plain text fed to an idle terminal, when it ends before the last place of the grid, is laid out
  -- in reading order from the cursor on, going on in the next row at the end of each; the cursor
  -- stands just past it, nothing scrolls, and every other cell is as it was.
  pub feed_text :
      (bs : List ℕ) (v : Vt)
      → Fits c r v
      → IsIdle v
      → AllPrintable bs
      → v.cy * c + v.cx + length bs < r * c
      → (v' : Vt) × (feed v bs ≡ some v') × Typed c r v bs v'
  feed_text bs v f idle p h = Ensures-some (Typed c r v bs) (feed v bs) (feed-Typed bs v f idle p h)
