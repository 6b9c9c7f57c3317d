-- ===== src/Pmm.antt =====
-- kernel/src/mm/pmm.rs: the physical page allocator and its bitmap.
pub mod Bits
pub mod Count
pub mod Single
pub mod Runs
pub mod Session
mod Tests
use anss_os.Common.{
  ==_iff, Allows, Allows-bind, Bool, Bool-cases, Bytes, Ensures, Ensures-bind, Ensures-mono,
  Ensures-some, List, Option, Option-cases, [], add_u16, ap, append-nil, append_assoc, ap₂, arith,
  bit_and, bit_or, bit_xor, bytes_eq, bytes_eq→eq, c_string, check, codes, contains_byte, dec_i32,
  drop, false, get_elem?, get_or, get_or-set_ne, get_or-set_self, if◌then◌else◌, inc_i32, inl, inr,
  insert_at, is_empty, is_empty_of_ne, is_positive_i32, leb, leb→le, length, length-append,
  length-drop, length-insert_at, length-ne_zero, length-remove, length-replicate, length-set,
  length-take, ltb, ltb→lt, map, max, min, none, not, refl, remove, replicate, rfind, rfind_from,
  saturating_add_u16, saturating_mul_u16, set, some, strip_prefix, subst, suc, sym, take,
  take-append-drop, take-append_exact, true, u16_max, zero, ℕ, ◌%◌, ◌&&◌, ◌*◌, ◌++◌, ◌+◌, ◌-◌, ◌/◌,
  ◌<◌, ◌==◌, ◌>>=◌, ◌^◌, ◌||◌, ◌↔◌, ◌∙◌, ◌∷◌, ◌≡◌, ◌≢◌, ◌≤◌, ◌⊎◌,
}

abbrev pub page_size : ℕ
page_size = 4096

-- `struct Pmm`; the bitmap is the bytes at its pointer.
pub record Pmm : Type 0 where
  pub bitmap : List ℕ
  pub total_pages : ℕ
  pub free_pages : ℕ
  pub cursor : ℕ

-- A page is in use where its bit is set. What the source reads or writes past the bitmap is
-- undefined, and a page there counts as free here; the theorems are on bitmaps that cover the pages.
unfoldable pub test : Pmm → ℕ → Bool
test p page = not (bit_and (get_or p.bitmap (page / 8) 0) (2 ^ (page % 8)) == 0)

pub set_page : Pmm → ℕ → Pmm
set_page p page = record p {
  bitmap = set p.bitmap (page / 8) (bit_or (get_or p.bitmap (page / 8) 0) (2 ^ (page % 8)));
}

-- `!(1 << k)` on a byte is `255 - 2 ^ k`.
pub clear_page : Pmm → ℕ → Pmm
clear_page p page = record p {
  bitmap = set p.bitmap (page / 8) (bit_and (get_or p.bitmap (page / 8) 0) (255 - 2 ^ (page % 8)));
}

-- The rounds left of `for page in start..end`, from `page` on.
pub try_alloc_loop : ℕ → Pmm → ℕ → Pmm × ℕ
try_alloc_loop zero p page = (p, 0)
try_alloc_loop (suc n) p page =
    let q = set_page p page in
    let rest = try_alloc_loop n p (page + 1) in
    if not (test p page)
    then (record q { free_pages = p.free_pages - 1; cursor = page + 1 }, page * page_size)
    else rest

pub try_alloc_from : Pmm → ℕ → ℕ → Pmm × ℕ
try_alloc_from p start end = try_alloc_loop (end - start) p start

-- A page's address, or 0.
pub alloc_page : Pmm → Pmm × ℕ
alloc_page p =
    let (q, addr) = try_alloc_from p p.cursor p.total_pages in
    if not (addr == 0) || q.cursor == 0 then (q, addr) else try_alloc_from q 0 q.cursor

pub free_page : Pmm → ℕ → Pmm
free_page p phys =
    let page = phys / page_size in
    if leb p.total_pages page || not (test p page)
    then p
    else record (clear_page p page) { free_pages = p.free_pages + 1 }

-- `(start..=page).for_each(|pg| p.set(pg))`, `n` pages from `page` on.
pub set_pages : ℕ → Pmm → ℕ → Pmm
set_pages zero p page = p
set_pages (suc n) p page = set_pages n (set_page p page) (page + 1)

-- The rounds left of the search in `alloc_pages`: the length of the free run that ends before `page`.
pub run_loop : ℕ → ℕ → Pmm → ℕ → ℕ → Pmm × ℕ
run_loop zero count p page run = (p, 0)
run_loop (suc n) count p page run =
    let used = test p page in
    let start = page + 1 - count in
    let rest = run_loop n count p (page + 1) (if used then 0 else run + 1) in
    if not used && run + 1 == count
    then (record (set_pages count p start) { free_pages = p.free_pages - count }, start * page_size)
    else rest

pub alloc_pages : Pmm → ℕ → Pmm × ℕ
alloc_pages p count =
    if count == 0 || ltb p.total_pages count then (p, 0) else run_loop p.total_pages count p 0 0
