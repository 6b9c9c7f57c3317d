-- ===== src/Scarf/Layout.antt =====
-- userland/rust/scarf/src/ui.rs: where the panes of the editor go.
use native.Mathlib.Nat.{pow-suc}
use anss_os.Common.{
  Bool, Bool-cases, Option, add_u16, arith, if◌then◌else◌, inl, inr, leb, leb→le, max, min, none,
  refl, some, subst, suc, sym, zero, ℕ, ◌&&◌, ◌*◌, ◌+◌, ◌-◌, ◌/◌, ◌<◌, ◌^◌, ◌∙◌, ◌≡◌, ◌≤◌, ◌⊎◌,
}

-- ratatui's Rect, of u16s.
pub record Rect : Type 0 where
  pub x : ℕ
  pub y : ℕ
  pub width : ℕ
  pub height : ℕ

abbrev pub sidebar_w : ℕ
sidebar_w = 28

pub record Layout : Type 0 where
  pub sidebar : Option Rect
  pub divider : Option Rect
  pub editor : Rect
  pub text_rows : ℕ
  pub list_rows : ℕ
  pub text_cols : ℕ
  pub gutter : ℕ
  pub status : Rect
  pub message : Rect

-- The loop of `digits`: dividing by ten ends within `n` rounds.
unfoldable pub digits_loop : ℕ → ℕ → ℕ → ℕ
digits_loop zero n d = d
digits_loop (suc fuel) n d =
    let rest = digits_loop fuel (n / 10) (d + 1) in if leb 10 n then rest else d

unfoldable pub digits : ℕ → ℕ
digits n = digits_loop n n 1

abbrev pub row_at : Rect → ℕ → Rect
row_at area line = record area { y = line; height = 1 }

-- The sidebar with its divider, if there is room, and the editor.
unfoldable pub panes_of : Rect → Bool → Option Rect × Option Rect × Rect
panes_of panes visible =
    let w = max (min sidebar_w (panes.width / 3)) 8 in
    let side : Rect = record panes { width = w } in
    let bar : Rect = record panes { x = add_u16 panes.x w; width = 1 } in
    let text : Rect = record panes {
      x = add_u16 (add_u16 panes.x w) 1;
      width = panes.width - w - 1;
    } in
    if visible && leb 24 panes.width then (some side, some bar, text) else (none, none, panes)

-- `bottom` is ratatui's `Rect::bottom`.
module _ (bottom : Rect → ℕ) where
  -- `Layout::new`, of the editor's `sidebar_visible` and the number of its lines.
  unfoldable pub layout : Rect → Bool → ℕ → Layout
  layout area visible lines =
      let panes : Rect = record area { height = area.height - 2 } in
      let (side, bar, text) = panes_of panes visible in
      let gutter = min (max (digits lines) 3 + 2) (text.width / 2) in
      record {
        sidebar = side;
        divider = bar;
        editor = text;
        text_rows = panes.height - 1;
        list_rows = panes.height - 1;
        text_cols = text.width - gutter;
        gutter = gutter;
        status = row_at area (bottom area - 2);
        message = row_at area (bottom area - 1);
      }

-- The panes from left to right.
abbrev pub SideBySide : Rect → Option Rect → Option Rect → Rect → Type 0
SideBySide area (some s) (some d) e =
    (s.x ≡ area.x)
    × (s.x + s.width ≡ d.x)
    × (d.x + d.width ≡ e.x)
    × (e.x + e.width ≡ area.x + area.width)
SideBySide area none none e = (e.x ≡ area.x) × (e.width ≡ area.width)
SideBySide area s d e = ⊥

-- In an area whose right edge is a u16, the sidebar, the divider and the editor stand side by side and
-- fill the area's width (or the editor alone does), and the gutter and the text fill the editor's,
-- with at least half of it left for the text.
pub layout-SideBySide :
    (bottom : Rect → ℕ) (area : Rect) (visible : Bool) (lines : ℕ)
    → area.x + area.width < 2 ^ 16
    → let l = layout bottom area visible lines in
      SideBySide area l.sidebar l.divider l.editor
      × (l.gutter + l.text_cols ≡ l.editor.width)
      × (l.editor.width ≤ 2 * l.text_cols)
unfolding layout panes_of
layout-SideBySide bottom area visible lines h = elim (Bool-cases (visible && leb 24 area.width)) [
  | inl side ↦
      rw side ((refl, ground arith, ground arith, ground arith), ground arith, ground arith)
  | inr alone ↦ rw alone ((refl, refl), ground arith, ground arith)
]

one_more :
    (n k : ℕ)
    → 10 ≤ n
    → n / 10 < 10 ^ suc k
    → (k ≡ 0) ⊎ (10 ^ k ≤ n / 10)
    → (n < 10 ^ suc (suc k)) × (10 ^ suc k ≤ n)
one_more n k more above (inl zero_k) =
    (omega (arith, pow-suc 10 (suc k)), subst (λ j. 10 ^ suc j ≤ n) (sym zero_k) more)
one_more n k more above (inr below) =
    (omega (arith, pow-suc 10 (suc k)), omega (arith, pow-suc 10 k))

digits_loop_lem :
    (fuel n d : ℕ)
    → n ≤ fuel
    → (k : ℕ) × (digits_loop fuel n d ≡ d + k) × (n < 10 ^ suc k) × ((k ≡ 0) ⊎ (10 ^ k ≤ n))
unfolding digits_loop
digits_loop_lem zero n d h = (0, ground arith, ground arith, inl refl)
digits_loop_lem (suc fuel) n d h = elim (Bool-cases (leb 10 n)) [
  | inl more ↦ rw more (
      let (k, e, above, below) = digits_loop_lem fuel (n / 10) (d + 1) (ground arith) in
      let both = one_more n k (leb→le 10 n more) above below in
      (suc k, e ∙ omega arith, both.0, inr both.1))
  | inr last ↦ rw last (0, ground arith, ground arith, inl refl)
]

digit_count :
    (n k r : ℕ)
    → 0 < n
    → r ≡ 1 + k
    → n < 10 ^ suc k
    → (k ≡ 0) ⊎ (10 ^ k ≤ n)
    → (n < 10 ^ r) × (10 ^ (r - 1) ≤ n)
digit_count n k r pos e above below = (
  subst (λ j. n < 10 ^ j) (omega (arith, e)) above,
  subst (λ j. 10 ^ j ≤ n) (omega (arith, e)) (at_least below),
)
  where
    at_least : (k ≡ 0) ⊎ (10 ^ k ≤ n) → 10 ^ k ≤ n
    at_least (inl zero_k) = subst (λ j. 10 ^ j ≤ n) (sym zero_k) pos
    at_least (inr b) = b

-- `digits` of a positive number is how many decimal digits it has.
pub digits_lem : (n : ℕ) → 0 < n → (n < 10 ^ digits n) × (10 ^ (digits n - 1) ≤ n)
unfolding digits
digits_lem n pos =
    let (k, e, above, below) = digits_loop_lem n n 1 (omega arith) in
    digit_count n k (digits_loop n n 1) pos e above below
