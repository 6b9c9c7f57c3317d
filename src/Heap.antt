-- ===== src/Heap.antt =====
-- kernel/src/mm/heap.rs: the kernel's heap over the page allocator.
mod Tests
pub mod Layout
pub mod Growth
pub mod Pages
pub mod Session
use anss_os.Common.{
  ==_iff, Allows, Allows-bind, Bool, Bool-cases, Bytes, Ensures, Ensures-bind, Ensures-mono,
  Ensures-some, List, Option, Option-cases, [], add_u16, all_below, all_below_sound, any_below,
  any_below_sound, ap, append-nil, append_assoc, ap₂, arith, bit_and, bit_or, bit_xor, bool_eq,
  bool_eq→eq, bytes_eq, bytes_eq→eq, c_string, check, codes, contains_byte, dec_i32, drop, false,
  get_elem?, get_elem?-eq-none, get_or, get_or-set_ne, get_or-set_self, if◌then◌else◌, inc_i32, inl,
  inr, insert_at, is_empty, is_empty_of_ne, is_positive_i32, leb, leb→le, length, length-append,
  length-drop, length-insert_at, length-ne_zero, length-remove, length-replicate, length-set,
  length-take, ltb, ltb→lt, map, max, min, none, not, refl, remove, replicate, rfind, rfind_from,
  saturating_add_u16, saturating_mul_u16, set, some, strip_prefix, subst, suc, sym, take,
  take-append-drop, take-append_exact, true, u16_max, zero, ℕ, ◌%◌, ◌&&◌, ◌*◌, ◌++◌, ◌+◌, ◌-◌, ◌/◌,
  ◌<◌, ◌==◌, ◌>>=◌, ◌^◌, ◌||◌, ◌↔◌, ◌∙◌, ◌∷◌, ◌≡◌, ◌≢◌, ◌≤◌, ◌⊎◌,
}
use anss_os.Pmm.{Pmm, page_size, alloc_pages}

abbrev pub heap_align : ℕ
heap_align = 16

-- `size_of::<Block>()`
abbrev pub header : ℕ
header = 32

-- A `Block` at the address of its header.
pub record Block : Type 0 where
  pub addr : ℕ
  pub size : ℕ
  pub free : Bool

-- The blocks along `next` from `head` on; the last one is `tail`.
abbrev pub Heap : Type 0
Heap = List Block

-- `(n + align - 1) & !(align - 1)`, for a power of two.
unfoldable pub align_up : ℕ → ℕ → ℕ
align_up n align = (n + align - 1) / align * align

-- The first block that is free and large enough, as the blocks before it, itself and those after.
unfoldable pub find_fit : Heap → ℕ → Heap → Option (Heap × Block × Heap)
find_fit before size [] = none
find_fit before size (b ∷ bs) =
    let rest = find_fit (before ++ b ∷ []) size bs in
    if b.free && leb size b.size then some (before, b, bs) else rest

-- `split`: the block, and what follows it.
unfoldable pub split : Block → ℕ → Heap → Block × Heap
split b size after =
    let rest : Block = record {
      addr = b.addr + header + size;
      size = b.size - size - header;
      free = true;
    } in
    if ltb b.size (size + header + heap_align)
    then (b, after)
    else (record b { size = size }, rest ∷ after)

-- The rest of `malloc`, for the block it found: its payload's address.
unfoldable pub take_block : Heap → Block → Heap → ℕ → Heap × ℕ
take_block before b after size =
    let (c, rest) = split b size after in
    (before ++ record c { free = false } ∷ rest, c.addr + header)

-- The rest of `malloc`, for what the search found and what `grow` would give: an address, or 0.
unfoldable pub serve :
    Pmm → Heap → ℕ → Option (Heap × Block × Heap) → Pmm × Option Block → Pmm × Heap × ℕ
serve p h size (some (before, b, after)) g =
    let (h1, ptr) = take_block before b after size in (p, h1, ptr)
serve p h size none (q, none) = (q, h, 0)
serve p h size none (q, some b) = let (h1, ptr) = take_block h b [] size in (q, h1, ptr)

-- `phys_to_virt` adds the offset of the direct map.
module _ (offset : ℕ) where
  -- The block in the pages that `alloc_pages` gave, if it gave any.
  unfoldable pub new_block : ℕ → Pmm × ℕ → Pmm × Option Block
  new_block pages (q, phys) = if phys == 0 then (q, none) else (
    q,
    some (record { addr = phys + offset; size = pages * page_size - header; free = true }),
  )

  unfoldable pub grow : Pmm → ℕ → Pmm × Option Block
  grow p min_size =
      let pages = (header + min_size + (page_size - 1)) / page_size in
      new_block pages (alloc_pages p pages)

  unfoldable pub malloc : Pmm → Heap → ℕ → Pmm × Heap × ℕ
  malloc p h asked =
      let size = align_up (max asked 1) heap_align in
      serve p h size (find_fit [] size h) (grow p size)

-- Forward coalescing, with the next block if it is free and adjacent.
unfoldable pub coalesce : Block → Heap → Heap
coalesce b [] = b ∷ []
coalesce b (n ∷ rest) =
    if n.free && n.addr == b.addr + header + b.size
    then record b { size = b.size + (header + n.size) } ∷ rest
    else b ∷ n ∷ rest

-- `free`, for the payload's address of a block of the heap.
unfoldable pub release : Heap → ℕ → Heap
release [] ptr = []
release (b ∷ bs) ptr =
    let rest = release bs ptr in
    if b.addr + header == ptr then coalesce (record b { free = true }) bs else b ∷ rest

-- The words that over-aligned allocations keep below their pointer: where, and the payload's address.
abbrev pub Words : Type 0
Words = List (ℕ × ℕ)

unfoldable pub word_at : Words → ℕ → ℕ
word_at [] addr = 0
word_at ((a, w) ∷ ws) addr = let rest = word_at ws addr in if a == addr then w else rest

module _ (offset : ℕ) where
  -- `GlobalAlloc::alloc`, of the layout's size and alignment.
  unfoldable pub alloc : Pmm → Heap → Words → ℕ → ℕ → Pmm × Heap × Words × ℕ
  alloc p h ws size align =
      let (q, h1, ptr) = malloc offset p h size in
      let (q2, h2, raw) = malloc offset p h (size + align) in
      let aligned = align_up (raw + 8) align in
      if leb align heap_align
      then (q, h1, ws, ptr)
      else if raw == 0
      then (q2, h2, ws, raw)
      else (q2, h2, (aligned - 8, raw) ∷ ws, aligned)

-- `GlobalAlloc::dealloc`
unfoldable pub dealloc : Heap → Words → ℕ → ℕ → Heap
dealloc h ws ptr align = release h (if leb align heap_align then ptr else word_at ws (ptr - 8))
