-- ===== src/Heap/Pages.antt =====
-- kernel/src/mm/heap.rs with kernel/src/mm/pmm.rs: the heap lies in pages that are in use.
use anss_os.Common.{
  Allows, Bool-cases, Option, [], arith, false, inl, inr, ltb, max, none, some, subst, true, ℕ,
  ◌&&◌, ◌*◌, ◌++◌, ◌+◌, ◌-◌, ◌/◌, ◌<◌, ◌==◌, ◌∷◌, ◌≡◌, ◌≤◌,
}
use native.Mathlib.Nat.{div-lt_iff_lt-mul, le-div_iff_mul-le}
use anss_os.Pmm.{Pmm, page_size, test}
use anss_os.Pmm.Bits.{Covers}
use anss_os.Pmm.Runs.{
  IsRun, RunAlloc, no_run, run_at, run_taken, run_taken_marks, alloc_pages-RunAlloc,
  alloc_pages_too_many,
}
use native.Mathlib.Decide.{dec_le}
use anss_os.Heap.{
  Block, Heap, header, heap_align, align_up, split, take_block, new_block, grow, serve, malloc,
  coalesce, release,
}
use anss_os.Heap.Layout.{end_of, find_fit_lem}
use anss_os.Heap.Growth.{Owned}

-- The bytes from `lo` up to `hi` lie in used pages.
abbrev InUse : ℕ → Pmm → ℕ → ℕ → Type 0
InUse offset p lo hi = (x : ℕ) → lo ≤ x + offset → x + offset < hi → test p (x / page_size) ≡ true

Owned-mono :
    (offset : ℕ) (p q : Pmm) (h : Heap)
    → ((k : ℕ) → test p k ≡ true → test q k ≡ true)
    → Owned offset p h
    → Owned offset q h
Owned-mono offset p q [] m o = tt
Owned-mono offset p q (b ∷ bs) m o =
    (o.0, (λ x l u. m (x / page_size) (o.1 x l u)), Owned-mono offset p q bs m o.2)

module _ (offset : ℕ) (p : Pmm) where
  Owned-snoc :
      (h : Heap) (b : Block)
      → Owned offset p h
      → offset ≤ b.addr
      → InUse offset p b.addr (end_of b)
      → Owned offset p (h ++ b ∷ [])
  Owned-snoc [] b o l u = (l, u, tt)
  Owned-snoc (x ∷ xs) b o l u = (o.0, o.1, Owned-snoc xs b o.2 l u)

  Owned-shrink :
      (before after : Heap) (b c : Block)
      → b.addr ≤ c.addr
      → end_of c ≤ end_of b
      → Owned offset p (before ++ b ∷ after)
      → Owned offset p (before ++ c ∷ after)
  Owned-shrink [] after b c l u o =
      (omega (arith, o.0), (λ x a z. o.1 x (omega arith) (omega arith)), o.2)
  Owned-shrink (x ∷ xs) after b c l u o = (o.0, o.1, Owned-shrink xs after b c l u o.2)

  Owned-cut :
      (before after : Heap) (b c d : Block)
      → b.addr ≤ c.addr
      → end_of c ≤ d.addr
      → end_of d ≤ end_of b
      → Owned offset p (before ++ b ∷ after)
      → Owned offset p (before ++ c ∷ d ∷ after)
  Owned-cut [] after b c d l m u o = (
    omega (arith, o.0),
    (λ x a z. o.1 x (omega arith) (omega arith)),
    (omega (arith, o.0), (λ x a z. o.1 x (omega arith) (omega arith)), o.2),
  )
  Owned-cut (x ∷ xs) after b c d l m u o = (o.0, o.1, Owned-cut xs after b c d l m u o.2)

  take_block-Owned :
      (before after : Heap) (b : Block) (size : ℕ)
      → size ≤ b.size
      → Owned offset p (before ++ b ∷ after)
      → Owned offset p (take_block before b after size).0
  unfolding take_block split
  take_block-Owned before after b size fits k =
      elim (Bool-cases (ltb b.size (size + header + heap_align))) [
        | inl small ↦
            rw small (
              Owned-shrink before after b (record b { free = false }) (omega arith) (omega arith) k)
        | inr large ↦ rw large (
            Owned-cut before after b (record { addr = b.addr; size = size; free = false })
              (record { addr = b.addr + header + size; size = b.size - size - header; free = true })
              (omega arith) (omega arith) (ground arith) k)
      ]

-- Used pages stay used, and a block that was added lies in used pages.
abbrev Grown : ℕ → Pmm → Pmm × Option Block → Type 0
Grown offset p g =
    ((k : ℕ) → test p k ≡ true → test g.0 k ≡ true)
    × Allows (λ b. (offset ≤ b.addr) × InUse offset g.0 b.addr (end_of b)) g.1

marks_keep :
    (p : Pmm) (count start : ℕ)
    → Covers p
    → IsRun p count start p.total_pages
    → (k : ℕ) → test p k ≡ true
    → test (run_taken p count start).0 k ≡ true
marks_keep p count start c r k t = ground (arith, run_taken_marks p count start k c r)

run-InUse :
    (offset : ℕ) (p : Pmm) (count start : ℕ)
    → Covers p
    → IsRun p count start p.total_pages
    → InUse offset
        (run_taken p count start).0
        (start * page_size + offset)
        ((start + count) * page_size + offset)
run-InUse offset p count start c r x l u =
    let a = (le-div_iff_mul-le {k = page_size} {x = start} {y = x} (omega arith)).1 (omega arith) in
    let z =
      (div-lt_iff_lt-mul {k = page_size} {x = x} {y = start + count} (omega arith)).1
        (omega arith) in
    ground (arith, run_taken_marks p count start (x / page_size) c r, a, z)

new_block-Grown :
    (offset : ℕ) (p : Pmm) (size count : ℕ) (r : Pmm × ℕ)
    → Covers p
    → header + size ≤ count * page_size
    → RunAlloc p count p.total_pages r
    → Grown offset p (new_block offset count r)
unfolding new_block
new_block-Grown offset p size count r c enough (no_run n e) = rw e ((λ k t. t), tt)
new_block-Grown offset p size count r c enough (run_at start run e) =
    rw e (elim (Bool-cases (start * page_size == 0)) [
      | inl low ↦ rw low (marks_keep p count start c run, tt)
      | inr high ↦ rw high (
        marks_keep p count start c run,
        (omega arith, (λ x l u. run-InUse offset p count start c run x l (omega arith))),
      )
    ])

grow-Grown : (offset : ℕ) (p : Pmm) (size : ℕ) → Covers p → Grown offset p (grow offset p size)
unfolding grow
grow-Grown offset p size c =
    elim (dec_le ((header + size + (page_size - 1)) / page_size) p.total_pages) [
      | yes few ↦
          new_block-Grown offset p size ((header + size + (page_size - 1)) / page_size) _ c
            (omega arith)
            (alloc_pages-RunAlloc p ((header + size + (page_size - 1)) / page_size) (omega arith)
              few)
      | no many ↦
          unfold new_block in
          rw (alloc_pages_too_many p ((header + size + (page_size - 1)) / page_size) (omega arith))
            ((λ k t. t), tt)
    ]

serve-Owned :
    (offset : ℕ) (p : Pmm) (h : Heap) (size : ℕ) (found : Option (Heap × Block × Heap))
    (g : Pmm × Option Block)
    → Owned offset p h
    → Allows (λ f. (h ≡ f.0 ++ f.1 ∷ f.2) × (f.1.free ≡ true) × (size ≤ f.1.size)) found
    → Grown offset p g
    → Allows (λ b. size ≤ b.size) g.1
    → Owned offset (serve p h size found g).0 (serve p h size found g).1
unfolding serve
serve-Owned offset p h size (some (before, b, after)) g o f n s =
    take_block-Owned offset p before after b size f.2 (subst (Owned offset p) f.0 o)
serve-Owned offset p h size none (q, none) o f n s = Owned-mono offset p q h n.0 o
serve-Owned offset p h size none (q, some b) o f n s =
    take_block-Owned offset q h [] b size s
      (Owned-snoc offset q h b (Owned-mono offset p q h n.0 o) n.1.0 n.1.1)

grow_enough : (offset : ℕ) (p : Pmm) (size : ℕ) → Allows (λ b. size ≤ b.size) (grow offset p size).1
unfolding grow new_block
grow_enough offset p size = ground arith

-- `malloc` keeps every block of the heap inside pages that the page allocator counts as used, for an
-- allocator whose bitmap has a bit for each page.
pub malloc-Owned :
    (offset : ℕ) (p : Pmm) (h : Heap) (asked : ℕ)
    → Covers p
    → Owned offset p h
    → Owned offset (malloc offset p h asked).0 (malloc offset p h asked).1
unfolding malloc
malloc-Owned offset p h asked c o =
    serve-Owned offset p h (align_up (max asked 1) heap_align) _ _ o
      (find_fit_lem [] h (align_up (max asked 1) heap_align))
      (grow-Grown offset p (align_up (max asked 1) heap_align) c)
      (grow_enough offset p (align_up (max asked 1) heap_align))

joined-InUse :
    (offset : ℕ) (p : Pmm) (b n : Block)
    → n.addr ≡ end_of b
    → InUse offset p b.addr (end_of b)
    → InUse offset p n.addr (end_of n)
    → InUse offset p b.addr (end_of n)
joined-InUse offset p b n e u v x lo hi = elim (dec_le (end_of b) (x + offset)) [
  | yes past ↦ v x (omega (arith, e)) hi
  | no before ↦ u x lo (omega arith)
]

coalesce-Owned :
    (offset : ℕ) (p : Pmm) (b : Block) (bs : Heap)
    → Owned offset p (b ∷ bs)
    → Owned offset p (coalesce b bs)
unfolding coalesce
coalesce-Owned offset p b [] o = o
coalesce-Owned offset p b (n ∷ rest) o =
    elim (Bool-cases (n.free && n.addr == b.addr + header + b.size)) [
      | inl join ↦
          let adjacent : n.addr ≡ end_of b = ground arith in
          rw join (
            o.0,
            (λ x l u. joined-InUse offset p b n adjacent o.1 o.2.1 x l (omega (arith, adjacent))),
            o.2.2,
          )
      | inr part ↦ rw part o
    ]

-- `free`, of any address, keeps every block of the heap inside pages that are in use.
pub release-Owned :
    (offset : ℕ) (p : Pmm) (h : Heap) (ptr : ℕ) → Owned offset p h → Owned offset p (release h ptr)
unfolding release
release-Owned offset p [] ptr o = o
release-Owned offset p (b ∷ bs) ptr o = elim (Bool-cases (b.addr + header == ptr)) [
  | inl here ↦ rw here (coalesce-Owned offset p (record b { free = true }) bs o)
  | inr other ↦ rw other (o.0, o.1, release-Owned offset p bs ptr o.2)
]
