-- ===== src/Tile/Tests.antt =====
-- The virtual terminal (userland/rust/tile/src/vt.rs) at concrete inputs.
use anss_os.Common.{
  List, [], arith, if◌then◌else◌, refl, some, suc, ℕ, ◌*◌, ◌+◌, ◌<◌, ◌==◌, ◌∷◌, ◌≡◌,
}
use anss_os.Tile.Screen.{Vt, new}
use anss_os.Tile.Csi.{erase_display, erase_line}
use anss_os.Tile.Feed.{feed}
use anss_os.Tile.Valid.{Fits, feed_total, new-Fits}
use anss_os.Tile.Erase.{blank_cells, erase_display_lem, erase_line_lem}
use anss_os.Tile.Print.{IsIdle, Typed, feed_text}

abbrev small : Vt
small = new 3 2

small-Fits : Fits 3 2 small
small-Fits = new-Fits 3 2 (omega arith) (omega arith)

abbrev clear_screen : List ℕ
clear_screen = b'a' ∷ 0x1b ∷ b'[' ∷ b'2' ∷ b'J' ∷ 0xc3 ∷ 0xa9 ∷ []

feed_total_example : (v' : Vt) × (feed small clear_screen ≡ some v') × Fits 3 2 v'
feed_total_example = feed_total 3 2 clear_screen small small-Fits

erase_display_lem_example :
    erase_display small 1
    ≡ some (
        if 1 == 2
        then blank_cells small 0 (2 * 3)
        else if 1 == 1
        then blank_cells small 0 (suc (small.cy * 3 + small.cx))
        else blank_cells small (small.cy * 3 + small.cx) (2 * 3))
erase_display_lem_example = erase_display_lem 3 2 small 1 small-Fits

erase_line_lem_example :
    erase_line small 0
    ≡ some (
        if 0 == 2
        then blank_cells small (small.cy * 3) (small.cy * 3 + 3)
        else if 0 == 1
        then blank_cells small (small.cy * 3) (suc (small.cy * 3 + small.cx))
        else blank_cells small (small.cy * 3 + small.cx) (small.cy * 3 + 3))
erase_line_lem_example = erase_line_lem 3 2 small 0 small-Fits

small-IsIdle : IsIdle small
unfolding new
small-IsIdle = record { plain_state = refl; no_char = refl }

small-room : small.cy * 3 + small.cx + 4 < 2 * 3
unfolding new
small-room = omega arith

abbrev four_letters : List ℕ
four_letters = b'a' ∷ b'b' ∷ b'c' ∷ b'd' ∷ []

feed_text_example :
    (v' : Vt) × (feed small four_letters ≡ some v') × Typed 3 2 small four_letters v'
feed_text_example =
    feed_text 3 2 four_letters small small-Fits small-IsIdle (ground arith) small-room
