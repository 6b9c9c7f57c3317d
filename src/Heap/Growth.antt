-- ===== src/Heap/Growth.antt =====
-- kernel/src/mm/heap.rs with kernel/src/mm/pmm.rs: what malloc hands out.
use anss_os.Common.{
  Allows, Bool-cases, Option, [], ap, append-nil, arith, false, if◌then◌else◌, inl, inr, ltb, max,
  none, refl, some, subst, sym, true, ℕ, ◌*◌, ◌++◌, ◌+◌, ◌-◌, ◌/◌, ◌<◌, ◌==◌, ◌∙◌, ◌∷◌, ◌≡◌, ◌≤◌,
  ◌⊎◌,
}
use native.Mathlib.Nat.{div-lt_iff_lt-mul, le-div_iff_mul-le}
use native.Mathlib.Decide.{dec_le}
use anss_os.Pmm.{Pmm, page_size, test}
use anss_os.Pmm.Runs.{IsRun, RunAlloc, no_run, run_at, alloc_pages-RunAlloc, alloc_pages_too_many}
use anss_os.Heap.{
  Block, Heap, header, heap_align, align_up, split, take_block, new_block, grow, serve, malloc,
}
use anss_os.Heap.Layout.{end_of, Clear, Clear-inside, Apart, take_block-Apart, find_fit_lem}

-- Every block lies in pages that the page allocator has marked as used, seen at `offset`.
abbrev pub Owned : ℕ → Pmm → Heap → Type 0
Owned offset p [] = Unit
Owned offset p (b ∷ bs) =
    (offset ≤ b.addr)
    × ((x : ℕ) → b.addr ≤ x + offset → x + offset < end_of b → test p (x / page_size) ≡ true)
    × Owned offset p bs

module _ (offset : ℕ) (p : Pmm) (start count hi : ℕ) (pos : 0 < count)
    (r : IsRun p count start hi) where
  -- A byte of the run is in no block.
  in_run :
      (x : ℕ)
      → start * page_size ≤ x
      → x < (start + count) * page_size
      → test p (x / page_size) ≡ false
  in_run x a b =
      r.all_free (x / page_size)
        ((le-div_iff_mul-le {k = page_size} {x = start} {y = x} (omega arith)).1 a)
        ((div-lt_iff_lt-mul {k = page_size} {x = x} {y = start + count} (omega arith)).1 b)

  apart_from :
      (b : Block)
      → offset ≤ b.addr
      → ((x : ℕ) → b.addr ≤ x + offset → x + offset < end_of b → test p (x / page_size) ≡ true)
      → (end_of b ≤ start * page_size + offset) ⊎ ((start + count) * page_size + offset ≤ b.addr)
  apart_from b above used = elim (dec_le (end_of b) (start * page_size + offset)) [
    | yes before ↦ inl before
    | no meets ↦ elim (dec_le ((start + count) * page_size + offset) b.addr) [
      | yes after ↦ inr after
      | no also ↦
          let x = max b.addr (start * page_size + offset) - offset in
          absurd (
            ground
              (arith, used x (omega arith) (omega arith), in_run x (omega arith) (omega arith)))
    ]
  ]

  run-Clear :
      (h : Heap)
      → Owned offset p h
      → Clear (start * page_size + offset) ((start + count) * page_size + offset) h
  run-Clear [] o = tt
  run-Clear (b ∷ bs) o = (apart_from b o.0 o.1, run-Clear bs o.2)

-- A new block for the heap: apart from every block of it, free, and large enough.
abbrev IsNew : Heap → ℕ → Block → Type 0
IsNew h size b = Clear b.addr (end_of b) h × (b.free ≡ true) × (size ≤ b.size)

new_block-IsNew :
    (offset : ℕ) (p : Pmm) (h : Heap) (size count : ℕ) (r : Pmm × ℕ)
    → Owned offset p h
    → header + size ≤ count * page_size
    → RunAlloc p count p.total_pages r
    → Allows (IsNew h size) (new_block offset count r).1
unfolding new_block
new_block-IsNew offset p h size count r o enough (no_run n e) = rw e tt
new_block-IsNew offset p h size count r o enough (run_at start run e) =
    rw e (elim (Bool-cases (start * page_size == 0)) [
      | inl low ↦ rw low tt
      | inr high ↦ rw high (
        Clear-inside (start * page_size + offset) ((start + count) * page_size + offset)
            (start * page_size + offset)
            (end_of (record {
              addr = start * page_size + offset;
              size = count * page_size - header;
              free = true;
            }))
            h (omega arith) (omega arith)
            (run-Clear offset p start count p.total_pages (omega arith) run h o),
        refl,
        omega arith,
      )
    ])

grow-IsNew :
    (offset : ℕ) (p : Pmm) (h : Heap) (size : ℕ)
    → Owned offset p h
    → Allows (IsNew h size) (grow offset p size).1
unfolding grow
grow-IsNew offset p h size o =
    elim (dec_le ((header + size + (page_size - 1)) / page_size) p.total_pages) [
      | yes few ↦
          new_block-IsNew offset p h size ((header + size + (page_size - 1)) / page_size) _ o
            (omega arith)
            (alloc_pages-RunAlloc p ((header + size + (page_size - 1)) / page_size) (omega arith)
              few)
      | no many ↦
          unfold new_block in
          rw (alloc_pages_too_many p ((header + size + (page_size - 1)) / page_size) (omega arith))
            tt
    ]

Clear-snoc :
    (lo hi : ℕ) (h : Heap) (b : Block)
    → Clear lo hi h
    → (end_of b ≤ lo) ⊎ (hi ≤ b.addr)
    → Clear lo hi (h ++ b ∷ [])
Clear-snoc lo hi [] b c e = (e, tt)
Clear-snoc lo hi (x ∷ xs) b c e = (c.0, Clear-snoc lo hi xs b c.1 e)

Apart-snoc : (h : Heap) (b : Block) → Apart h → Clear b.addr (end_of b) h → Apart (h ++ b ∷ [])
Apart-snoc [] b a c = (tt, tt)
Apart-snoc (x ∷ xs) b a c =
    (Clear-snoc x.addr (end_of x) xs b a.0 (ground arith), Apart-snoc xs b a.1 c.1)

-- The blocks that are in use.
unfoldable pub used : Heap → Heap
used [] = []
used (b ∷ bs) = let rest = used bs in if b.free then rest else b ∷ rest

-- From `h` to `h'` one block came into use, of at least `n` bytes and with its payload at `ptr`, and
-- every other block in use is as it was.
abbrev pub Handed : Heap → Heap → ℕ → ℕ → Type 0
Handed h h' ptr n =
    (before : Heap) × (b : Block) × (after : Heap) × (used h ≡ before ++ after)
    × (used h' ≡ before ++ b ∷ after)
    × (b.addr + header ≡ ptr)
    × (n ≤ b.size)

used-append : (xs ys : Heap) → used (xs ++ ys) ≡ used xs ++ used ys
unfolding used
used-append [] ys = refl
used-append (x ∷ xs) ys = ground (arith, used-append xs ys)

used_skip : (b : Block) (after : Heap) → b.free ≡ true → used (b ∷ after) ≡ used after
unfolding used
used_skip b after e = rw e refl

used_free :
    (before after : Heap) (b : Block)
    → b.free ≡ true
    → used (before ++ b ∷ after) ≡ used before ++ used after
unfolding used
used_free before after b e = rw (used-append before (b ∷ after), e) refl

used_taken :
    (before after : Heap) (b : Block)
    → b.free ≡ false
    → used (before ++ b ∷ after) ≡ used before ++ b ∷ used after
unfolding used
used_taken before after b e = rw (used-append before (b ∷ after), e) refl

take_block-Handed :
    (h before after : Heap) (b : Block) (size n : ℕ)
    → used h ≡ used before ++ used after
    → size ≤ b.size
    → n ≤ size
    → Handed h (take_block before b after size).0 (take_block before b after size).1 n
unfolding take_block split
take_block-Handed h before after b size n others fits le =
    elim (Bool-cases (ltb b.size (size + header + heap_align))) [
      | inl small ↦ rw small (
        used before,
        record b { free = false },
        used after,
        others,
        used_taken before after (record b { free = false }) refl,
        refl,
        omega arith,
      )
      | inr large ↦ rw large (
        used before,
        record { addr = b.addr; size = size; free = false },
        used after,
        others,
        used_taken before (cut ∷ after) (record { addr = b.addr; size = size; free = false }) refl
            ∙ ap (λ rest. used before ++ record { addr = b.addr; size = size; free = false } ∷ rest)
                (used_skip cut after refl),
        refl,
        le,
      )
    ]
  where
    cut : Block
    cut = record { addr = b.addr + header + size; size = b.size - size - header; free = true }

all_used : (h : Heap) → used h ≡ used h ++ used []
unfolding used
all_used h = sym (append-nil (used h))

serve-Handed :
    (p : Pmm) (h : Heap) (asked size : ℕ) (found : Option (Heap × Block × Heap))
    (g : Pmm × Option Block)
    → asked ≤ size
    → Apart h
    → Allows (λ f. (h ≡ f.0 ++ f.1 ∷ f.2) × (f.1.free ≡ true) × (size ≤ f.1.size)) found
    → Allows (IsNew h size) g.1
    → let r = serve p h size found g in Apart r.1 × ((r.2 ≡ 0) × (r.1 ≡ h) ⊎ Handed h r.1 r.2 asked)
unfolding serve
serve-Handed p h asked size (some (before, b, after)) g le a f n = (
  take_block-Apart before after b size f.2 (subst Apart f.0 a),
  inr (
      take_block-Handed h before after b size asked (ap used f.0 ∙ used_free before after b f.1) f.2
        le),
)
serve-Handed p h asked size none (q, none) le a f n = (a, inl (refl, refl))
serve-Handed p h asked size none (q, some b) le a f n = (
  take_block-Apart h [] b size n.2 (Apart-snoc h b a n.0),
  inr (take_block-Handed h h [] b size asked (all_used h) n.2 le),
)

-- `malloc` of a heap whose blocks lie apart, in pages that the page allocator counts as used, leaves
-- them apart. It returns 0 and the heap as it was; or, among the blocks in use, there is then one more,
-- which has at least as many bytes as were asked for, and its payload is what is returned. The other
-- blocks in use are those that were, unchanged and in the same order.
pub malloc_lem :
    (offset : ℕ) (p : Pmm) (h : Heap) (asked : ℕ)
    → Owned offset p h
    → Apart h
    → let r = malloc offset p h asked in
      Apart r.1 × ((r.2 ≡ 0) × (r.1 ≡ h) ⊎ Handed h r.1 r.2 asked)
unfolding malloc align_up
malloc_lem offset p h asked o a =
    serve-Handed p h asked (align_up (max asked 1) heap_align) _
      (grow offset p (align_up (max asked 1) heap_align)) (omega arith) a
      (find_fit_lem [] h (align_up (max asked 1) heap_align))
      (grow-IsNew offset p h (align_up (max asked 1) heap_align) o)
