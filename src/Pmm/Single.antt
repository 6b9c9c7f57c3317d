-- ===== src/Pmm/Single.antt =====
-- alloc_page() and free_page() of kernel/src/mm/pmm.rs.
use anss_os.Common.{
  Bool-cases, ap, arith, false, if◌then◌else◌, inl, inr, ltb, not, refl, suc, sym, true, zero, ℕ,
  ◌&&◌, ◌+◌, ◌-◌, ◌/◌, ◌<◌, ◌==◌, ◌||◌, ◌∙◌, ◌≡◌, ◌≤◌, ◌⊎◌,
}
use native.Mathlib.Decide.{ℕ_discrete, dec_lt}
use anss_os.Pmm.{Pmm, page_size, test, try_alloc_loop, try_alloc_from, alloc_page, free_page}
use anss_os.Pmm.Count.{
  Granted, total-set_page, count_free-flip, test-released, Inv, taken, taken-Inv, test-taken,
  released-Inv,
}

-- What a search of the pages from `lo` up to `hi` does: it finds none free and changes nothing, or it
-- takes the first that is.
data Search (p : Pmm) (lo hi : ℕ) (r : Pmm × ℕ) : Type 0 where
  none_free : ((q : ℕ) → lo ≤ q → q < hi → test p q ≡ true) → r ≡ (p, 0) → Search p lo hi r
  found :
      (k : ℕ)
      → lo ≤ k
      → k < hi
      → test p k ≡ false
      → ((q : ℕ) → lo ≤ q → q < k → test p q ≡ true)
      → r ≡ taken p k
      → Search p lo hi r

used_from :
    (p : Pmm) (lo hi : ℕ)
    → test p lo ≡ true
    → ((q : ℕ) → lo + 1 ≤ q → q < hi → test p q ≡ true)
    → (q : ℕ) → lo ≤ q
    → q < hi
    → test p q ≡ true
used_from p lo hi used h q l lt = elim (ℕ_discrete lo q) [
  | yes e ↦ ap (test p) (sym e) ∙ used
  | no ne ↦ h q (omega arith) lt
]

skip :
    (p : Pmm) (lo hi : ℕ) (r : Pmm × ℕ)
    → test p lo ≡ true
    → Search p (lo + 1) hi r
    → Search p lo hi r
skip p lo hi r used (none_free h e) = none_free (used_from p lo hi used h) e
skip p lo hi r used (found k l lt free h e) =
    found k (omega arith) lt free (used_from p lo k used h) e

try_alloc_loop-Search :
    (n : ℕ) (p : Pmm) (lo hi : ℕ) → hi ≡ lo + n → Search p lo hi (try_alloc_loop n p lo)
unfolding try_alloc_loop
try_alloc_loop-Search zero p lo hi e = none_free (λ q l h. absurd (omega arith)) refl
try_alloc_loop-Search (suc n) p lo hi e = elim (Bool-cases (test p lo)) [
  | inl used ↦ rw used (skip p lo hi _ used (try_alloc_loop-Search n p (lo + 1) hi (omega arith)))
  | inr free ↦
      rw free (found lo (omega arith) (omega arith) free (λ q l h. absurd (omega arith)) refl)
]

-- What `alloc_page` does, by the state it leaves.
data Alloc (p : Pmm) (r : Pmm × ℕ) : Type 0 where
  exhausted : ((q : ℕ) → q < p.total_pages → test p q ≡ true) → r ≡ (p, 0) → Alloc p r
  got : (k : ℕ) → 0 < k → k < p.total_pages → test p k ≡ false → r ≡ taken p k → Alloc p r

free_pos : (p : Pmm) (k : ℕ) → Inv p → test p k ≡ false → 0 < k
free_pos p zero i free = absurd (ground (arith, i.reserved))
free_pos p (suc k) i free = omega arith

wrapped :
    (p : Pmm) (r : Pmm × ℕ)
    → Inv p
    → ((q : ℕ) → p.cursor ≤ q → q < p.total_pages → test p q ≡ true)
    → Search p 0 p.cursor r
    → Alloc p r
wrapped p r i high (none_free low e) =
    exhausted
      (λ q h. elim (dec_lt q p.cursor) [
        | yes before ↦ low q (omega arith) before
        | no past ↦ high q (omega arith) h
      ])
      e
wrapped p r i high (found k l lt free h e) =
    got k (free_pos p k i free) (omega (arith, i.cursor_in)) free e

again-Alloc :
    (p : Pmm) (r : Pmm × ℕ)
    → Inv p
    → Search p p.cursor p.total_pages r
    → Alloc p (if not (r.1 == 0) || r.0.cursor == 0 then r else try_alloc_from r.0 0 r.0.cursor)
unfolding try_alloc_from
again-Alloc p r i (none_free h e) = rw e (again (Bool-cases (p.cursor == 0)))
  where
    again :
        (p.cursor == 0 ≡ true) ⊎ (p.cursor == 0 ≡ false)
        → Alloc p (if p.cursor == 0 then (p, 0) else try_alloc_loop (p.cursor - 0) p 0)
    again (inl start) = rw start (exhausted (λ q lt. h q (ground arith) lt) refl)
    again (inr some_before) =
        rw some_before
          (wrapped p _ i h (try_alloc_loop-Search (p.cursor - 0) p 0 p.cursor (omega arith)))
again-Alloc p r i (found k l lt free h e) =
    let pos = free_pos p k i free in got k pos lt free (rw e (ground arith))

alloc_page-Alloc : (p : Pmm) → Inv p → Alloc p (alloc_page p)
unfolding alloc_page try_alloc_from
alloc_page-Alloc p i = again-Alloc p _ i (
    try_alloc_loop-Search (p.total_pages - p.cursor) p p.cursor p.total_pages
      (omega (arith, i.cursor_in)))

-- With no free page at all the caller is given 0 and nothing changes, and otherwise one page that is
-- not page 0.
pub data GivesPage (p : Pmm) (r : Pmm × ℕ) : Type 0 where
  full : ((q : ℕ) → q < p.total_pages → test p q ≡ true) → r ≡ (p, 0) → GivesPage p r
  gives : (k : ℕ) → 0 < k → Granted p k 1 r → GivesPage p r

some_free : (p : Pmm) (k : ℕ) → Inv p → k < p.total_pages → test p k ≡ false → 0 < p.free_pages
some_free p k i h free = omega (
  arith,
  i.counted,
  count_free-flip (test p) (λ q. if k == q then true else test p q) p.total_pages k h free
      (λ q. refl),
)

taken-Granted :
    (p : Pmm) (k : ℕ) → Inv p → k < p.total_pages → test p k ≡ false → Granted p k 1 (taken p k)
taken-Granted p k i h free = record {
  inside = omega arith;
  were_free = λ q l lt. ap (test p) (omega arith) ∙ free;
  address = refl;
  marks = λ q. ground (arith, test-taken p k q i h);
  counter = omega (arith, some_free p k i h free);
  total = total-set_page p k;
}

Alloc-GivesPage : (p : Pmm) (r : Pmm × ℕ) → Inv p → Alloc p r → GivesPage p r
Alloc-GivesPage p r i (exhausted used e) = full used e
Alloc-GivesPage p r i (got k pos h free e) = gives k pos (rw e (taken-Granted p k i h free))

-- On a bitmap that covers the pages, with a right counter, the cursor in range and page 0 reserved,
-- `alloc_page` returns 0 and changes nothing when no page is free. Otherwise it returns the address
-- of a page other than page 0 that was free; afterwards that page is used, every other page is as
-- it was, and the counter of free pages is lower by one.
pub alloc_page_lem : (p : Pmm) → Inv p → GivesPage p (alloc_page p)
alloc_page_lem p i = Alloc-GivesPage p (alloc_page p) i (alloc_page-Alloc p i)

pub alloc_page-Inv : (p : Pmm) → Inv p → Inv (alloc_page p).0
alloc_page-Inv p i = step (alloc_page p) (alloc_page-Alloc p i)
  where
    step : (r : Pmm × ℕ) → Alloc p r → Inv r.0
    step r (exhausted h e) = rw e i
    step r (got k pos lt free e) = rw e (taken-Inv p k i lt free)

-- Whatever address is given, `free_page` leaves free the page that it lies in, if that is one of the
-- memory's, and every other page as it was; the counter goes up by one if that page was in use, and
-- does not change otherwise.
pub free_page_lem :
    (p : Pmm) (phys q : ℕ)
    → Inv p
    → q < p.total_pages
    → (test (free_page p phys) q ≡ (if phys / page_size == q then false else test p q))
      × ((free_page p phys).free_pages
          ≡ p.free_pages
            + (if ltb (phys / page_size) p.total_pages && test p (phys / page_size) then 1 else 0))
unfolding free_page
free_page_lem p phys q i h =
    elim (Bool-cases (ltb (phys / page_size) p.total_pages && test p (phys / page_size))) [
      | inl used ↦ ground (arith, used, test-released p (phys / page_size) q i)
      | inr not_used ↦ elim (ℕ_discrete (phys / page_size) q) [
        | yes here ↦ ground (arith, not_used, ap (test p) here)
        | no other ↦ ground (arith, not_used)
      ]
    ]

pub free_page-Inv : (p : Pmm) (phys : ℕ) → Inv p → page_size ≤ phys → Inv (free_page p phys)
unfolding free_page
free_page-Inv p phys i h = ground (arith, released-Inv p (phys / page_size) i)
