-- ===== src/Heap/Tests.antt =====
-- The kernel's heap (kernel/src/mm/heap.rs) at concrete inputs.
use anss_os.Common.{List, [], ap, arith, false, refl, true, ℕ, ◌/◌, ◌∷◌, ◌≡◌, ◌⊎◌}
use anss_os.Pmm.{Pmm, page_size, test}
use anss_os.Heap.{Heap, malloc}
use anss_os.Heap.Session.{Request, get, give_back, serve_all, IsSound, serve_all-IsSound}
use anss_os.Pmm.Count.{Inv, count_free}
use anss_os.Heap.Layout.{Apart}
use anss_os.Heap.Growth.{Owned, Handed, malloc_lem}

-- Four pages, of which the first two are in use.
abbrev pages : Pmm
pages = record { bitmap = 3 ∷ []; total_pages = 4; free_pages = 2; cursor = 0 }

-- The second page, cut in two: a used block of 96 bytes and a free one.
abbrev two_blocks : Heap
two_blocks =
    record { addr = 8192; size = 96; free = false }
    ∷ record { addr = 8320; size = 3936; free = true }
    ∷ []

-- The direct map is at 4096.
second_used : (x : ℕ) → x / page_size ≡ 1 → test pages (x / page_size) ≡ true
unfolding test
second_used x e = ap (test pages) e

two_blocks-Owned : Owned 4096 pages two_blocks
two_blocks-Owned = (
  omega arith,
  (λ x a b. second_used x (omega arith)),
  (omega arith, (λ x a b. second_used x (omega arith)), tt),
)

malloc_lem_example :
    Apart (malloc 4096 pages two_blocks 5000).1
    × (((malloc 4096 pages two_blocks 5000).2 ≡ 0)
          × ((malloc 4096 pages two_blocks 5000).1 ≡ two_blocks)
        ⊎ Handed two_blocks
            (malloc 4096 pages two_blocks 5000).1
            (malloc 4096 pages two_blocks 5000).2
            5000)
malloc_lem_example = malloc_lem 4096 pages two_blocks 5000 two_blocks-Owned (ground arith)

pages-Inv : Inv pages
unfolding test count_free
pages-Inv = record {
  covers = record { bytes = (omega arith, tt); enough = omega arith };
  counted = refl;
  cursor_in = omega arith;
  reserved = refl;
}

abbrev requests : List Request
requests = get 40 ∷ get 5000 ∷ give_back 8224 ∷ get 16 ∷ []

serve_all-IsSound_example : IsSound 4096 (serve_all 4096 (pages, two_blocks) requests)
serve_all-IsSound_example =
    serve_all-IsSound 4096 requests (pages, two_blocks)
      (record { pages = pages-Inv; owned = two_blocks-Owned; apart = ground arith })
