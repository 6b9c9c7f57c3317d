-- ===== src/Scarf/View.antt =====
-- userland/rust/scarf/src/editor.rs: what is on the screen.
use anss_os.Common.{arith, max, ℕ, ◌+◌, ◌<◌, ◌≡◌, ◌≤◌}
use anss_os.Scarf.Editor
use anss_os.Scarf.Editor.{Editor}

-- After `scroll` the cursor, which does not move, is inside the window of `rows` by `cols` characters
-- (of one, where a size is 0).
pub scroll_shows_cursor :
    (e : Editor) (rows cols : ℕ)
    → let e' = Editor.scroll e rows cols in
      (e'.cy ≡ e.cy)
      × (e'.cx ≡ e.cx)
      × (e'.rowoff ≤ e'.cy)
      × (e'.cy < e'.rowoff + max rows 1)
      × (e'.coloff ≤ e'.cx)
      × (e'.cx < e'.coloff + max cols 1)
unfolding Editor.scroll
scroll_shows_cursor e rows cols = ground arith
