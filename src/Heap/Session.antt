-- ===== src/Heap/Session.antt =====
-- kernel/src/mm/heap.rs: any sequence of allocations and releases.
use anss_os.Common.{Bool-cases, List, Option, [], inl, inr, none, some, ℕ, ◌==◌, ◌∷◌}
use anss_os.Pmm.{Pmm}
use anss_os.Pmm.Count.{Inv}
use anss_os.Pmm.Runs.{alloc_pages-Inv}
use anss_os.Heap.{Block, Heap, new_block, grow, serve, malloc, release}
use anss_os.Heap.Layout.{Apart, release-Apart}
use anss_os.Heap.Growth.{Owned, malloc_lem}
use anss_os.Heap.Pages.{malloc-Owned, release-Owned}

pub data Request : Type 0 where
  get : ℕ → Request
  give_back : ℕ → Request

-- What each request leaves of the page allocator and of the heap.
abbrev pub step : ℕ → Pmm × Heap → Request → Pmm × Heap
step offset s (get asked) = ((malloc offset s.0 s.1 asked).0, (malloc offset s.0 s.1 asked).1)
step offset s (give_back ptr) = (s.0, release s.1 ptr)

unfoldable pub serve_all : ℕ → Pmm × Heap → List Request → Pmm × Heap
serve_all offset s [] = s
serve_all offset s (r ∷ rs) = serve_all offset (step offset s r) rs

-- The page allocator's invariant holds, and the blocks lie apart and in used pages.
pub record IsSound (offset : ℕ) (s : Pmm × Heap) : Type 0 where
  pub pages : Inv s.0
  pub owned : Owned offset s.0 s.1
  pub apart : Apart s.1

new_block-Inv : (offset count : ℕ) (r : Pmm × ℕ) → Inv r.0 → Inv (new_block offset count r).0
unfolding new_block
new_block-Inv offset count (q, phys) i = elim (Bool-cases (phys == 0)) [
  | inl e ↦ rw e i
  | inr e ↦ rw e i
]

serve-Inv :
    (p : Pmm) (h : Heap) (size : ℕ) (found : Option (Heap × Block × Heap)) (g : Pmm × Option Block)
    → Inv p
    → Inv g.0
    → Inv (serve p h size found g).0
unfolding serve
serve-Inv p h size (some (before, b, after)) g i j = i
serve-Inv p h size none (q, none) i j = j
serve-Inv p h size none (q, some b) i j = j

malloc-Inv : (offset : ℕ) (p : Pmm) (h : Heap) (asked : ℕ) → Inv p → Inv (malloc offset p h asked).0
unfolding malloc grow
malloc-Inv offset p h asked i =
    serve-Inv p h _ _ _ i (new_block-Inv offset _ _ (alloc_pages-Inv p _ i))

step-IsSound :
    (offset : ℕ) (s : Pmm × Heap) (r : Request)
    → IsSound offset s
    → IsSound offset (step offset s r)
step-IsSound offset s (get asked) i = record {
  pages = malloc-Inv offset s.0 s.1 asked i.pages;
  owned = malloc-Owned offset s.0 s.1 asked i.pages.covers i.owned;
  apart = (malloc_lem offset s.0 s.1 asked i.owned i.apart).0;
}
step-IsSound offset s (give_back ptr) i = record {
  pages = i.pages;
  owned = release-Owned offset s.0 s.1 ptr i.owned;
  apart = release-Apart s.1 ptr i.apart;
}

-- Whatever is allocated and released, and in whatever order, the page allocator's invariant holds, the
-- blocks of the heap do not overlap, and they lie in pages that the page allocator counts as used.
pub serve_all-IsSound :
    (offset : ℕ) (rs : List Request) (s : Pmm × Heap)
    → IsSound offset s
    → IsSound offset (serve_all offset s rs)
unfolding serve_all
serve_all-IsSound offset [] s i = i
serve_all-IsSound offset (r ∷ rs) s i =
    serve_all-IsSound offset rs (step offset s r) (step-IsSound offset s r i)
