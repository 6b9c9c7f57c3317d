-- ===== src/Pmm/Runs.antt =====
-- alloc_pages() of kernel/src/mm/pmm.rs: a run of free pages, found by one walk over the bitmap.
use native.Mathlib.Decide.{ℕ_discrete, dec_lt}
use anss_os.Common.{
  ==_iff, Bool, Bool-cases, ap, arith, false, if◌then◌else◌, inl, inr, leb, ltb, refl, suc, sym,
  true, zero, ℕ, ◌&&◌, ◌*◌, ◌+◌, ◌-◌, ◌<◌, ◌==◌, ◌||◌, ◌∙◌, ◌≡◌, ◌≢◌, ◌≤◌,
}
use anss_os.Pmm.{Pmm, page_size, test, set_page, set_pages, run_loop, alloc_pages}
use anss_os.Pmm.Bits.{Covers, set_page-Covers, test-set_page}
use anss_os.Pmm.Count.{
  Granted, Inv, count_free, count_free-flip, count_free-same, total-set_page, rest-set_page,
}

-- `count` pages from `start` on, all free, before the walk reached `hi`.
pub record IsRun (p : Pmm) (count start hi : ℕ) : Type 0 where
  pub inside : start + count ≤ hi
  pub all_free : (q : ℕ) → start ≤ q → q < start + count → test p q ≡ false

-- Each `count` pages below `hi` have a used one among them.
abbrev pub NoRun : Pmm → ℕ → ℕ → Type 0
NoRun p count hi =
    (s : ℕ) → s + count ≤ hi → (q : ℕ) × (s ≤ q) × (q < s + count) × (test p q ≡ true)

-- The pages of a run marked as used.
abbrev pub run_taken : Pmm → ℕ → ℕ → Pmm × ℕ
run_taken p count start =
    (record (set_pages count p start) { free_pages = p.free_pages - count }, start * page_size)

pub data RunAlloc (p : Pmm) (count hi : ℕ) (r : Pmm × ℕ) : Type 0 where
  no_run : NoRun p count hi → r ≡ (p, 0) → RunAlloc p count hi r
  run_at :
      (start : ℕ) → IsRun p count start hi → r ≡ run_taken p count start → RunAlloc p count hi r

-- What the walk knows at `page`: the `run` pages before it are free, the one before those is used,
-- and no run of `count` ended before.
record Walk (p : Pmm) (count page run : ℕ) : Type 0 where
  short : run < count
  back : run ≤ page
  behind : (q : ℕ) → page - run ≤ q → q < page → test p q ≡ false
  edge : run < page → test p (page - run - 1) ≡ true
  none_yet : NoRun p count page

==_of_ne : (a b : ℕ) → a ≢ b → (a == b) ≡ false
==_of_ne a b h = ground arith

module _ (p : Pmm) (count : ℕ) where
  Walk-used :
      (page run : ℕ) → Walk p count page run → test p page ≡ true → Walk p count (page + 1) 0
  Walk-used page run w used = record {
    short = omega arith;
    back = omega arith;
    behind = λ q l h. absurd (omega arith);
    edge = λ h. ap (test p) (omega arith) ∙ used;
    none_yet = λ s h. elim (dec_lt page (s + count)) [
      | yes ends ↦ (page, omega arith, ends, used)
      | no before ↦ w.none_yet s (omega arith)
    ];
  }

  Walk-free :
      (page run : ℕ)
      → Walk p count page run
      → test p page ≡ false
      → run + 1 ≢ count
      → Walk p count (page + 1) (run + 1)
  Walk-free page run w free ne = record {
    short = omega (arith, w.short);
    back = omega (arith, w.back);
    behind = λ q l h. elim (ℕ_discrete page q) [
      | yes e ↦ ap (test p) (sym e) ∙ free
      | no other ↦ w.behind q (omega arith) (omega arith)
    ];
    edge = λ h. ap (test p) (omega arith) ∙ w.edge (omega arith);
    none_yet = λ s h. elim (dec_lt page (s + count)) [
      | yes ends ↦ (
        page - run - 1,
        omega (arith, w.short, w.back),
        omega (arith, w.short, w.back),
        w.edge (omega (arith, w.short)),
      )
      | no before ↦ w.none_yet s (omega arith)
    ];
  }

  ending :
      (page run hi : ℕ)
      → Walk p count page run
      → test p page ≡ false
      → run + 1 ≡ count
      → page + 1 ≤ hi
      → IsRun p count (page + 1 - count) hi
  ending page run hi w free hit h = record {
    inside = omega (arith, w.back);
    all_free = λ q l lt. elim (ℕ_discrete page q) [
      | yes e ↦ ap (test p) (sym e) ∙ free
      | no other ↦ w.behind q (omega (arith, w.back)) (omega (arith, w.back))
    ];
  }

  run_loop-RunAlloc :
      (n page run hi : ℕ)
      → hi ≡ page + n
      → Walk p count page run
      → RunAlloc p count hi (run_loop n count p page run)
  unfolding run_loop
  run_loop-RunAlloc zero page run hi e w = no_run (λ s h. w.none_yet s (omega arith)) refl
  run_loop-RunAlloc (suc n) page run hi e w = elim (Bool-cases (test p page)) [
    | inl used ↦
        rw used (run_loop-RunAlloc n (page + 1) 0 hi (omega arith) (Walk-used page run w used))
    | inr free ↦ rw free (elim (ℕ_discrete (run + 1) count) [
      | yes hit ↦
          rw ((==_iff (run + 1) count).1 hit)
            (run_at (page + 1 - count) (ending page run hi w free hit (omega arith)) refl)
      | no more ↦ rw (==_of_ne (run + 1) count more) (
          run_loop-RunAlloc n (page + 1) (run + 1) hi (omega arith)
            (Walk-free page run w free more))
    ])
  ]

-- Marking `n` pages marks those and no others, and takes that many from the free ones.
record Marked (n : ℕ) (p : Pmm) (page : ℕ) (q : Pmm) : Type 0 where
  covers : Covers q
  total : q.total_pages ≡ p.total_pages
  rest : (q.free_pages ≡ p.free_pages) × (q.cursor ≡ p.cursor)
  marks : (k : ℕ) → test q k ≡ (if leb page k && ltb k (page + n) then true else test p k)

set_pages-Marked :
    (n : ℕ) (p : Pmm) (page : ℕ)
    → Covers p
    → page + n ≤ p.total_pages
    → Marked n p page (set_pages n p page)
unfolding set_pages
set_pages-Marked zero p page c h = record {
  covers = c;
  total = refl;
  rest = (refl, refl);
  marks = λ k. ground arith;
}
set_pages-Marked (suc n) p page c h =
    let m =
      set_pages-Marked n (set_page p page) (page + 1) (set_page-Covers p page c)
        (omega (arith, total-set_page p page)) in
    record {
      covers = m.covers;
      total = m.total ∙ total-set_page p page;
      rest = (m.rest.0 ∙ (rest-set_page p page).0, m.rest.1 ∙ (rest-set_page p page).1);
      marks = λ k. ground (arith, m.marks k, test-set_page p page c k);
    }

count_free-mark :
    (n : ℕ) (f g : ℕ → Bool) (total page : ℕ)
    → page + n ≤ total
    → ((k : ℕ) → page ≤ k → k < page + n → f k ≡ false)
    → ((k : ℕ) → g k ≡ (if leb page k && ltb k (page + n) then true else f k))
    → count_free f total ≡ n + count_free g total
count_free-mark zero f g total page h free eq =
    omega (arith, count_free-same f g total (λ k lt. ground (arith, eq k)))
count_free-mark (suc n) f g total page h free eq = omega (
  arith,
  count_free-flip f with_page total page (omega arith) (free page (omega arith) (omega arith))
      (λ q. refl),
  count_free-mark n with_page g total (page + 1) (omega arith) (λ k l lt. ground (arith, free k))
      (λ k. ground (arith, eq k)),
)
  where
    with_page : ℕ → Bool
    with_page k = if page == k then true else f k

Walk-start : (p : Pmm) (count : ℕ) → 0 < count → Walk p count 0 0
Walk-start p count pos = record {
  short = pos;
  back = omega arith;
  behind = λ q l lt. absurd (omega arith);
  edge = λ lt. absurd (omega arith);
  none_yet = λ s lt. absurd (omega arith);
}

not_less : (a b : ℕ) → b ≤ a → ltb a b ≡ false
not_less a b h = ground arith

test-counters : (p : Pmm) (n k : ℕ) → test (record p { free_pages = n }) k ≡ test p k
unfolding test
test-counters p n k = refl

-- Taking a run marks its pages, and no others.
pub run_taken_marks :
    (p : Pmm) (count start k : ℕ)
    → Covers p
    → IsRun p count start p.total_pages
    → test (run_taken p count start).0 k
      ≡ (if leb start k && ltb k (start + count) then true else test p k)
run_taken_marks p count start k c r =
    test-counters (set_pages count p start) (p.free_pages - count) k
    ∙ Marked.marks (set_pages-Marked count p start c r.inside) k

run_taken-Inv :
    (p : Pmm) (count start : ℕ)
    → Inv p
    → IsRun p count start p.total_pages
    → Inv (run_taken p count start).0
run_taken-Inv p count start i r =
    let m = set_pages-Marked count p start i.covers r.inside in
    record {
      covers = record { bytes = m.covers.bytes; enough = m.covers.enough };
      counted = omega (
        arith,
        i.counted,
        count_free-mark count (test p) after p.total_pages start r.inside r.all_free
            (λ k. test-counters (set_pages count p start) (p.free_pages - count) k ∙ m.marks k),
        ap (count_free after) m.total,
      );
      cursor_in = omega (arith, m.rest.1, m.total, i.cursor_in);
      reserved =
          test-counters (set_pages count p start) (p.free_pages - count) 0
          ∙ ground (arith, m.marks 0, i.reserved);
    }
  where
    after : ℕ → Bool
    after = test (run_taken p count start).0

pub alloc_pages-RunAlloc :
    (p : Pmm) (count : ℕ)
    → 0 < count
    → count ≤ p.total_pages
    → RunAlloc p count p.total_pages (alloc_pages p count)
unfolding alloc_pages
alloc_pages-RunAlloc p count pos h =
    rw (==_of_ne count 0 (omega arith), not_less p.total_pages count h)
      (run_loop-RunAlloc p count p.total_pages 0 0 p.total_pages (omega arith)
        (Walk-start p count pos))

-- Where no run of so many free pages is left the caller is given 0 and nothing changes, and otherwise
-- such a run, which does not have page 0 in it.
pub data GivesRun (p : Pmm) (count : ℕ) (r : Pmm × ℕ) : Type 0 where
  none_left : NoRun p count p.total_pages → r ≡ (p, 0) → GivesRun p count r
  gives_run : (start : ℕ) → 0 < start → Granted p start count r → GivesRun p count r

run_taken-Granted :
    (p : Pmm) (count start : ℕ)
    → Inv p
    → IsRun p count start p.total_pages
    → Granted p start count (run_taken p count start)
run_taken-Granted p count start i run = record {
  inside = run.inside;
  were_free = run.all_free;
  address = refl;
  marks = λ q. run_taken_marks p count start q i.covers run;
  counter = omega (
    arith,
    i.counted,
    count_free-mark count (test p) (test (run_taken p count start).0) p.total_pages start run.inside
        run.all_free (λ q. run_taken_marks p count start q i.covers run),
  );
  total = Marked.total (set_pages-Marked count p start i.covers run.inside);
}

RunAlloc-GivesRun :
    (p : Pmm) (count : ℕ) (r : Pmm × ℕ)
    → Inv p
    → 0 < count
    → RunAlloc p count p.total_pages r
    → GivesRun p count r
RunAlloc-GivesRun p count r i pos (no_run h e) = none_left h e
RunAlloc-GivesRun p count r i pos (run_at zero run e) =
    absurd (ground (arith, i.reserved, run.all_free 0 (omega arith) (omega arith)))
RunAlloc-GivesRun p count r i pos (run_at (suc start) run e) =
    gives_run (suc start) (omega arith) (rw e (run_taken-Granted p count (suc start) i run))

-- On a bitmap that covers the pages, with a right counter, the cursor in range and page 0 reserved,
-- and for a count from 1 up to the number of pages: `alloc_pages` returns 0 and changes nothing
-- when there is no run of so many free pages. Otherwise it returns the address of the first page of
-- a run of so many pages inside the memory, page 0 not among them, that were all free; afterwards
-- they are all used, every other page is as it was, and the counter of free pages is lower by their
-- number.
pub alloc_pages_lem :
    (p : Pmm) (count : ℕ)
    → Inv p
    → 0 < count
    → count ≤ p.total_pages
    → GivesRun p count (alloc_pages p count)
alloc_pages_lem p count i pos h =
    RunAlloc-GivesRun p count (alloc_pages p count) i pos (alloc_pages-RunAlloc p count pos h)

RunAlloc-Inv :
    (p : Pmm) (count : ℕ) (r : Pmm × ℕ) → Inv p → RunAlloc p count p.total_pages r → Inv r.0
RunAlloc-Inv p count r i (no_run h e) = rw e i
RunAlloc-Inv p count r i (run_at start run e) = rw e (run_taken-Inv p count start i run)

pub alloc_pages-Inv : (p : Pmm) (count : ℕ) → Inv p → Inv (alloc_pages p count).0
unfolding alloc_pages
alloc_pages-Inv p count i = elim (Bool-cases (count == 0 || ltb p.total_pages count)) [
  | inl refused ↦ rw refused i
  | inr tried ↦ rw tried (
      RunAlloc-Inv p count _ i (
        run_loop-RunAlloc p count p.total_pages 0 0 p.total_pages (omega arith)
          (Walk-start p count (ground arith))))
]

pub alloc_pages_too_many :
    (p : Pmm) (count : ℕ) → p.total_pages < count → alloc_pages p count ≡ (p, 0)
unfolding alloc_pages
alloc_pages_too_many p count h = ground arith
