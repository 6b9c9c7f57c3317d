-- ===== src/Pmm/Count.antt =====
-- The free pages of kernel/src/mm/pmm.rs, counted from the bitmap.
use anss_os.Common.{
  Bool, ap, arith, false, if◌then◌else◌, leb, ltb, refl, suc, true, zero, ℕ, ◌&&◌, ◌*◌, ◌+◌, ◌-◌,
  ◌<◌, ◌==◌, ◌≡◌, ◌≢◌, ◌≤◌,
}
use native.Mathlib.Decide.{ℕ_discrete}
use anss_os.Pmm.{Pmm, test, set_page, clear_page, page_size}
use anss_os.Pmm.Bits.{Covers, set_page-Covers, clear_page-Covers, test-set_page, test-clear_page}

-- How many pages below `n` are free.
unfoldable pub count_free : (ℕ → Bool) → ℕ → ℕ
count_free f zero = 0
count_free f (suc n) = if f n then count_free f n else suc (count_free f n)

pub count_free-same :
    (f g : ℕ → Bool) (n : ℕ) → ((q : ℕ) → q < n → g q ≡ f q) → count_free g n ≡ count_free f n
unfolding count_free
count_free-same f g zero h = refl
count_free-same f g (suc n) h =
    ground (arith, h n, count_free-same f g n (λ q lt. h q (omega arith)))

-- Taking one page out of the free ones.
pub count_free-flip :
    (f g : ℕ → Bool) (n k : ℕ)
    → k < n
    → f k ≡ false
    → ((q : ℕ) → g q ≡ (if k == q then true else f q))
    → count_free f n ≡ suc (count_free g n)
unfolding count_free
count_free-flip f g zero k h fk eq = absurd (omega arith)
count_free-flip f g (suc n) k h fk eq = elim (ℕ_discrete k n) [
  | yes e ↦ ground (arith, eq n, ap f e, count_free-same f g n (λ q lt. ground (arith, eq q)))
  | no ne ↦ ground (arith, eq n, count_free-flip f g n k (omega arith) fk eq)
]

-- What every call keeps: the bitmap covers the pages, the counter counts its clear bits, the cursor
-- is in range, and page 0 is never free.
pub record Inv (p : Pmm) : Type 0 where
  pub covers : Covers p
  pub counted : p.free_pages ≡ count_free (test p) p.total_pages
  pub cursor_in : p.cursor ≤ p.total_pages
  pub reserved : test p 0 ≡ true

-- The allocator after page `k` was handed out, and the page's address.
abbrev pub taken : Pmm → ℕ → Pmm × ℕ
taken p k = (record (set_page p k) { free_pages = p.free_pages - 1; cursor = k + 1 }, k * page_size)

pub total-set_page : (p : Pmm) (k : ℕ) → (set_page p k).total_pages ≡ p.total_pages
unfolding set_page
total-set_page p k = refl

pub rest-set_page :
    (p : Pmm) (k : ℕ)
    → ((set_page p k).free_pages ≡ p.free_pages) × ((set_page p k).cursor ≡ p.cursor)
unfolding set_page
rest-set_page p k = (refl, refl)

-- The same bits, whatever the counters are.
pub test-taken :
    (p : Pmm) (k q : ℕ)
    → Inv p
    → k < p.total_pages
    → test (taken p k).0 q ≡ (if k == q then true else test p q)
unfolding test set_page
test-taken p k q i h = unfold test set_page in test-set_page p k i.covers q h

pub taken-Inv : (p : Pmm) (k : ℕ) → Inv p → k < p.total_pages → test p k ≡ false → Inv (taken p k).0
unfolding set_page
taken-Inv p k i h free = record {
  covers = record {
    bytes = (set_page-Covers p k i.covers).bytes;
    enough = (set_page-Covers p k i.covers).enough;
  };
  counted = omega (
    arith,
    i.counted,
    count_free-flip (test p) (test (taken p k).0) p.total_pages k h free
        (λ q. test-taken p k q i h),
  );
  cursor_in = omega arith;
  reserved = ground (arith, test-taken p k 0 i h, i.reserved);
}

-- What a caller is given: `count` pages of the memory from `start` on, all free before and used
-- after, with no other page's state changed, and the counter lower by their number.
pub record Granted (p : Pmm) (start count : ℕ) (r : Pmm × ℕ) : Type 0 where
  pub inside : start + count ≤ p.total_pages
  pub were_free : (q : ℕ) → start ≤ q → q < start + count → test p q ≡ false
  pub address : r.1 ≡ start * page_size
  pub marks :
      (q : ℕ) → test r.0 q ≡ (if leb start q && ltb q (start + count) then true else test p q)
  pub counter : r.0.free_pages + count ≡ p.free_pages
  pub total : r.0.total_pages ≡ p.total_pages

-- The allocator after page `k` was given back.
abbrev pub released : Pmm → ℕ → Pmm
released p k = record (clear_page p k) { free_pages = p.free_pages + 1 }

pub test-released :
    (p : Pmm) (k q : ℕ)
    → Inv p
    → k < p.total_pages
    → test (released p k) q ≡ (if k == q then false else test p q)
unfolding test clear_page
test-released p k q i h = unfold test clear_page in test-clear_page p k i.covers q h

pub released-Inv :
    (p : Pmm) (k : ℕ) → Inv p → k < p.total_pages → k ≢ 0 → test p k ≡ true → Inv (released p k)
unfolding clear_page
released-Inv p k i h pos used = record {
  covers = record {
    bytes = (clear_page-Covers p k i.covers).bytes;
    enough = (clear_page-Covers p k i.covers).enough;
  };
  counted = omega (
    arith,
    i.counted,
    count_free-flip (test (released p k)) (test p) p.total_pages k h
        (ground (arith, test-released p k k i h))
        (λ q. ground (arith, test-released p k q i h, ap (test p) {x = k} {y = q})),
  );
  cursor_in = i.cursor_in;
  reserved = ground (arith, test-released p k 0 i h, i.reserved);
}
