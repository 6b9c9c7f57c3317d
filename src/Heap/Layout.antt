-- ===== src/Heap/Layout.antt =====
-- kernel/src/mm/heap.rs: no two blocks of the heap overlap.
use anss_os.Common.{
  Allows, Bool-cases, [], append_assoc, arith, false, inl, inr, leb, ltb, refl, subst, true, ℕ,
  ◌&&◌, ◌++◌, ◌+◌, ◌-◌, ◌<◌, ◌==◌, ◌∷◌, ◌≡◌, ◌≤◌, ◌⊎◌,
}
use anss_os.Heap.{Block, Heap, header, heap_align, find_fit, split, take_block, coalesce, release}

-- A block takes its header and its size.
abbrev pub end_of : Block → ℕ
end_of b = b.addr + header + b.size

-- No block of the heap meets the addresses from `lo` up to `hi`.
abbrev pub Clear : ℕ → ℕ → Heap → Type 0
Clear lo hi [] = Unit
Clear lo hi (b ∷ bs) = ((end_of b ≤ lo) ⊎ (hi ≤ b.addr)) × Clear lo hi bs

abbrev pub Apart : Heap → Type 0
Apart [] = Unit
Apart (b ∷ bs) = Clear b.addr (end_of b) bs × Apart bs

pub Clear-inside :
    (lo hi lo' hi' : ℕ) (h : Heap) → lo ≤ lo' → hi' ≤ hi → Clear lo hi h → Clear lo' hi' h
Clear-inside lo hi lo' hi' [] l u c = tt
Clear-inside lo hi lo' hi' (b ∷ bs) l u c = ground (arith, Clear-inside lo hi lo' hi' bs l u c.1)

-- A block that shrinks leaves what was clear of it clear.
Clear-shrink :
    (lo hi : ℕ) (before after : Heap) (b c : Block)
    → b.addr ≤ c.addr
    → end_of c ≤ end_of b
    → Clear lo hi (before ++ b ∷ after)
    → Clear lo hi (before ++ c ∷ after)
Clear-shrink lo hi [] after b c l u k = ground arith
Clear-shrink lo hi (x ∷ xs) after b c l u k = (k.0, Clear-shrink lo hi xs after b c l u k.1)

Clear-cut :
    (lo hi : ℕ) (before after : Heap) (b c d : Block)
    → b.addr ≤ c.addr
    → end_of c ≤ d.addr
    → end_of d ≤ end_of b
    → Clear lo hi (before ++ b ∷ after)
    → Clear lo hi (before ++ c ∷ d ∷ after)
Clear-cut lo hi [] after b c d l m u k = ground arith
Clear-cut lo hi (x ∷ xs) after b c d l m u k = (k.0, Clear-cut lo hi xs after b c d l m u k.1)

Apart-shrink :
    (before after : Heap) (b c : Block)
    → b.addr ≤ c.addr
    → end_of c ≤ end_of b
    → Apart (before ++ b ∷ after)
    → Apart (before ++ c ∷ after)
Apart-shrink [] after b c l u k =
    (Clear-inside b.addr (end_of b) c.addr (end_of c) after l u k.0, k.1)
Apart-shrink (x ∷ xs) after b c l u k =
    (Clear-shrink x.addr (end_of x) xs after b c l u k.0, Apart-shrink xs after b c l u k.1)

Apart-cut :
    (before after : Heap) (b c d : Block)
    → b.addr ≤ c.addr
    → end_of c ≤ d.addr
    → end_of d ≤ end_of b
    → Apart (before ++ b ∷ after)
    → Apart (before ++ c ∷ d ∷ after)
Apart-cut [] after b c d l m u k = (
  (inr m, Clear-inside b.addr (end_of b) c.addr (end_of c) after l (omega arith) k.0),
  (Clear-inside b.addr (end_of b) d.addr (end_of d) after (omega arith) u k.0, k.1),
)
Apart-cut (x ∷ xs) after b c d l m u k =
    (Clear-cut x.addr (end_of x) xs after b c d l m u k.0, Apart-cut xs after b c d l m u k.1)

-- What `malloc` takes of a block, and what it cuts off, lie apart.
pub take_block-Apart :
    (before after : Heap) (b : Block) (size : ℕ)
    → size ≤ b.size
    → Apart (before ++ b ∷ after)
    → Apart (take_block before b after size).0
unfolding take_block split
take_block-Apart before after b size fits k =
    elim (Bool-cases (ltb b.size (size + header + heap_align))) [
      | inl small ↦
          rw small
            (Apart-shrink before after b (record b { free = false }) (omega arith) (omega arith) k)
      | inr large ↦ rw large (
          Apart-cut before after b (record { addr = b.addr; size = size; free = false })
            (record { addr = b.addr + header + size; size = b.size - size - header; free = true })
            (omega arith) (omega arith) (ground arith) k)
    ]

coalesce-Clear :
    (lo hi : ℕ) (b : Block) (bs : Heap)
    → lo < hi
    → Clear lo hi (b ∷ bs)
    → Clear lo hi (coalesce b bs)
unfolding coalesce
coalesce-Clear lo hi b [] p k = k
coalesce-Clear lo hi b (n ∷ rest) p k = ground arith

joined-Clear :
    (b n : Block) (h : Heap)
    → n.addr ≡ end_of b
    → Clear b.addr (end_of b) h
    → Clear n.addr (end_of n) h
    → Clear b.addr (end_of n) h
joined-Clear b n [] e k j = tt
joined-Clear b n (x ∷ xs) e k j = ground (arith, joined-Clear b n xs e k.1 j.1)

coalesce-Apart : (b : Block) (bs : Heap) → Apart (b ∷ bs) → Apart (coalesce b bs)
unfolding coalesce
coalesce-Apart b [] k = k
coalesce-Apart b (n ∷ rest) k = elim (Bool-cases (n.free && n.addr == b.addr + header + b.size)) [
  | inl join ↦ rw join (
    subst (λ hi. Clear b.addr hi rest) (ground arith)
        (joined-Clear b n rest (ground arith) k.0.1 k.1.0),
    k.1.1,
  )
  | inr part ↦ rw part k
]

release-Clear :
    (lo hi : ℕ) (h : Heap) (ptr : ℕ) → lo < hi → Clear lo hi h → Clear lo hi (release h ptr)
unfolding release
release-Clear lo hi [] ptr p k = k
release-Clear lo hi (b ∷ bs) ptr p k = ground (
  arith,
  release-Clear lo hi bs ptr p k.1,
  coalesce-Clear lo hi (record b { free = true }) bs p k,
)

-- `free`, of any address, keeps the blocks apart, also where it joins a block with the next one.
pub release-Apart : (h : Heap) (ptr : ℕ) → Apart h → Apart (release h ptr)
unfolding release
release-Apart [] ptr k = k
release-Apart (b ∷ bs) ptr k = ground (
  arith,
  release-Clear b.addr (end_of b) bs ptr (omega arith) k.0,
  release-Apart bs ptr k.1,
  coalesce-Apart (record b { free = true }) bs k,
)

-- What a search finds stands in the heap where it says, is free, and is large enough.
pub find_fit_lem :
    (before h : Heap) (size : ℕ)
    → Allows
        (λ f. (before ++ h ≡ f.0 ++ f.1 ∷ f.2) × (f.1.free ≡ true) × (size ≤ f.1.size))
        (find_fit before size h)
unfolding find_fit
find_fit_lem before [] size = tt
find_fit_lem before (b ∷ bs) size = elim (Bool-cases (b.free && leb size b.size)) [
  | inl fits ↦ rw fits (refl, ground arith, ground arith)
  | inr small ↦ rw small (
      subst
        (λ l.
          Allows (λ f. (l ≡ f.0 ++ f.1 ∷ f.2) × (f.1.free ≡ true) × (size ≤ f.1.size))
            (find_fit (before ++ b ∷ []) size bs))
        (append_assoc before (b ∷ []) bs) (find_fit_lem (before ++ b ∷ []) bs size))
]
