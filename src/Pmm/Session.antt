-- ===== src/Pmm/Session.antt =====
-- kernel/src/mm/pmm.rs: sequences of calls of the page allocator.
use anss_os.Common.{
  List, [], ap, arith, inl, inr, refl, true, ℕ, ◌*◌, ◌+◌, ◌/◌, ◌<◌, ◌∙◌, ◌∷◌, ◌≡◌, ◌≢◌, ◌≤◌, ◌⊎◌,
}
use native.Mathlib.Decide.{dec_lt, dec_le, ℕ_discrete}
use anss_os.Pmm.{Pmm, page_size, test, clear_page, alloc_page, alloc_pages, free_page}
use anss_os.Pmm.Count.{Inv, Granted}
use anss_os.Pmm.Single.{
  GivesPage, full, gives, alloc_page_lem, alloc_page-Inv, free_page_lem, free_page-Inv,
}
use anss_os.Pmm.Runs.{
  GivesRun, none_left, gives_run, alloc_pages_lem, alloc_pages-Inv, alloc_pages_too_many,
}

-- What the kernel asks of the allocator: one page, a run of pages, or to take back the page that an
-- address lies in.
pub data Call : Type 0 where
  one : Call
  many : (count : ℕ) → Call
  give_back : (phys : ℕ) → Call

-- The address that the caller gets stands beside the allocator; giving back yields none.
unfoldable pub step : Pmm → Call → Pmm × ℕ
step p one = alloc_page p
step p (many count) = alloc_pages p count
step p (give_back phys) = (free_page p phys, 0)

unfoldable pub run : Pmm → List Call → Pmm
run p [] = p
run p (c ∷ cs) = run (step p c).0 cs

-- No call gives back an address in page 0.
abbrev pub AboveZero : List Call → Type 0
AboveZero [] = Unit
AboveZero (one ∷ cs) = AboveZero cs
AboveZero (many count ∷ cs) = AboveZero cs
AboveZero (give_back phys ∷ cs) = (page_size ≤ phys) × AboveZero cs

-- No call gives back page `k`.
abbrev pub Holds : ℕ → List Call → Type 0
Holds k [] = Unit
Holds k (one ∷ cs) = Holds k cs
Holds k (many count ∷ cs) = Holds k cs
Holds k (give_back phys ∷ cs) = (phys / page_size ≢ k) × Holds k cs

abbrev pub pages_asked : Call → ℕ
pages_asked one = 1
pages_asked (many count) = count
pages_asked (give_back phys) = 0

-- The address is 0, or page `k` ends before it, or begins where the pages at it end.
abbrev pub Outside : ℕ → ℕ → ℕ → Type 0
Outside k addr n =
    (addr ≡ 0) ⊎ (((k + 1) * page_size ≤ addr) ⊎ (addr + n * page_size ≤ k * page_size))

-- No call of them hands out page `k`.
abbrev pub NeverGives : ℕ → Pmm → List Call → Type 0
NeverGives k p [] = Unit
NeverGives k p (c ∷ cs) = Outside k (step p c).1 (pages_asked c) × NeverGives k (step p c).0 cs

-- From an allocator whose bitmap covers the pages, whose counter is the number of its clear bits, whose
-- cursor is in range and whose page 0 is reserved: after any calls of `alloc_page`, `alloc_pages` and
-- `free_page`, none of which gives back an address below 4096, all of that still holds.
pub run-Inv : (cs : List Call) (p : Pmm) → Inv p → AboveZero cs → Inv (run p cs)
unfolding run step
run-Inv [] p i a = i
run-Inv (one ∷ cs) p i a = run-Inv cs (alloc_page p).0 (alloc_page-Inv p i) a
run-Inv (many count ∷ cs) p i a = run-Inv cs (alloc_pages p count).0 (alloc_pages-Inv p count i) a
run-Inv (give_back phys ∷ cs) p i (above, a) =
    run-Inv cs (free_page p phys) (free_page-Inv p phys i above) a

-- A used page of the memory is not in what a call hands out, and stays a used page of the memory.
abbrev Stays : Pmm → ℕ → ℕ → Pmm × ℕ → Type 0
Stays p k n r = Outside k r.1 n × (test r.0 k ≡ true) × (r.0.total_pages ≡ p.total_pages)

Granted-Stays :
    (p : Pmm) (start n k : ℕ) (r : Pmm × ℕ) → Granted p start n r → test p k ≡ true → Stays p k n r
Granted-Stays p start n k r g used = (outside, ground (arith, g.marks k, used), g.total)
  where
    outside : Outside k r.1 n
    outside = elim (dec_lt k start) [
      | yes before ↦ inr (inl (omega (arith, g.address)))
      | no here ↦ elim (dec_lt k (start + n)) [
        | yes within ↦ absurd (ground (arith, used, g.were_free k (omega arith) within))
        | no after ↦ inr (inr (omega (arith, g.address)))
      ]
    ]

nothing-Stays : (p : Pmm) (n k : ℕ) (r : Pmm × ℕ) → r ≡ (p, 0) → test p k ≡ true → Stays p k n r
nothing-Stays p n k r e used = rw e (inl refl, used, refl)

page-Stays : (p : Pmm) (k : ℕ) (r : Pmm × ℕ) → GivesPage p r → test p k ≡ true → Stays p k 1 r
page-Stays p k r (full h e) used = nothing-Stays p 1 k r e used
page-Stays p k r (gives start pos g) used = Granted-Stays p start 1 k r g used

run-Stays :
    (p : Pmm) (count k : ℕ) (r : Pmm × ℕ) → GivesRun p count r → test p k ≡ true → Stays p k count r
run-Stays p count k r (none_left h e) used = nothing-Stays p count k r e used
run-Stays p count k r (gives_run start pos g) used = Granted-Stays p start count k r g used

alloc_pages_zero : (p : Pmm) → alloc_pages p 0 ≡ (p, 0)
unfolding alloc_pages
alloc_pages_zero p = refl

-- Either no pages can be given for that count, or the count is one that a run can be looked for.
many_cases :
    (p : Pmm) (count : ℕ)
    → Inv p
    → (alloc_pages p count ≡ (p, 0)) ⊎ ((0 < count) × GivesRun p count (alloc_pages p count))
many_cases p count i = elim (ℕ_discrete count 0) [
  | yes none_asked ↦ inl (ap (alloc_pages p) none_asked ∙ alloc_pages_zero p)
  | no some_asked ↦ elim (dec_le count p.total_pages) [
    | yes few ↦ inr (omega arith, alloc_pages_lem p count i (omega arith) few)
    | no many_asked ↦ inl (alloc_pages_too_many p count (omega arith))
  ]
]

many-Stays :
    (p : Pmm) (count k : ℕ) → Inv p → test p k ≡ true → Stays p k count (alloc_pages p count)
many-Stays p count k i used = elim (many_cases p count i) [
  | inl e ↦ nothing-Stays p count k (alloc_pages p count) e used
  | inr (pos, g) ↦ run-Stays p count k (alloc_pages p count) g used
]

total-free_page : (p : Pmm) (phys : ℕ) → (free_page p phys).total_pages ≡ p.total_pages
unfolding free_page clear_page
total-free_page p phys = ground arith

never_gives :
    (cs : List Call) (p : Pmm) (k : ℕ)
    → Inv p
    → k < p.total_pages
    → test p k ≡ true
    → AboveZero cs
    → Holds k cs
    → NeverGives k p cs
unfolding step
never_gives [] p k i lt used a h = tt
never_gives (one ∷ cs) p k i lt used a h =
    let (out, still, total) = page-Stays p k (alloc_page p) (alloc_page_lem p i) used in
    (out, never_gives cs (alloc_page p).0 k (alloc_page-Inv p i) (omega (arith, total)) still a h)
never_gives (many count ∷ cs) p k i lt used a h =
    let (out, still, total) = many-Stays p count k i used in
    (
      out,
      never_gives cs (alloc_pages p count).0 k (alloc_pages-Inv p count i) (omega (arith, total))
          still a h,
    )
never_gives (give_back phys ∷ cs) p k i lt used (above, a) (other, h) = (
  inl refl,
  never_gives cs (free_page p phys) k (free_page-Inv p phys i above)
      (omega (arith, total-free_page p phys))
      (ground (arith, (free_page_lem p phys k i lt).0, used, other)) a h,
)

-- The page is one of the memory's and used.
abbrev IsUsed : Pmm → ℕ → Type 0
IsUsed p k = (k < p.total_pages) × (test p k ≡ true)

Granted-IsUsed :
    (p : Pmm) (start n k : ℕ) (r : Pmm × ℕ)
    → Granted p start n r
    → r.1 ≤ k * page_size
    → k * page_size < r.1 + n * page_size
    → IsUsed r.0 k
Granted-IsUsed p start n k r g lo hi =
    let from : start ≤ k = omega (arith, g.address) in
    let to : k < start + n = omega (arith, g.address) in
    (omega (arith, g.inside, g.total), ground (arith, g.marks k))

page-IsUsed :
    (p : Pmm) (k : ℕ) (r : Pmm × ℕ)
    → GivesPage p r
    → r.1 ≢ 0
    → r.1 ≤ k * page_size
    → k * page_size < r.1 + 1 * page_size
    → IsUsed r.0 k
page-IsUsed p k r (full h e) ne lo hi = absurd (ne (ap (λ s. s.1) e))
page-IsUsed p k r (gives start pos g) ne lo hi = Granted-IsUsed p start 1 k r g lo hi

run-IsUsed :
    (p : Pmm) (count k : ℕ) (r : Pmm × ℕ)
    → GivesRun p count r
    → r.1 ≢ 0
    → r.1 ≤ k * page_size
    → k * page_size < r.1 + count * page_size
    → IsUsed r.0 k
run-IsUsed p count k r (none_left h e) ne lo hi = absurd (ne (ap (λ s. s.1) e))
run-IsUsed p count k r (gives_run start pos g) ne lo hi = Granted-IsUsed p start count k r g lo hi

-- What a first call handed out, seen from one page of it.
first_gave :
    (c : Call) (p : Pmm) (k : ℕ)
    → Inv p
    → (step p c).1 ≢ 0
    → (step p c).1 ≤ k * page_size
    → k * page_size < (step p c).1 + pages_asked c * page_size
    → Inv (step p c).0 × (k < (step p c).0.total_pages) × (test (step p c).0 k ≡ true)
unfolding step
first_gave one p k i ne lo hi =
    let (lt, used) = page-IsUsed p k (alloc_page p) (alloc_page_lem p i) ne lo hi in
    (alloc_page-Inv p i, lt, used)
first_gave (many count) p k i ne lo hi = elim (many_cases p count i) [
  | inl e ↦ absurd (ne (ap (λ r. r.1) e))
  | inr (pos, g) ↦ many_gave g
]
  where
    many_gave :
        GivesRun p count (alloc_pages p count)
        → Inv (alloc_pages p count).0
          × (k < (alloc_pages p count).0.total_pages)
          × (test (alloc_pages p count).0 k ≡ true)
    many_gave g =
        let (lt, used) = run-IsUsed p count k (alloc_pages p count) g ne lo hi in
        (alloc_pages-Inv p count i, lt, used)
first_gave (give_back phys) p k i ne lo hi = absurd (ne refl)

-- From an allocator whose bitmap covers the pages, with a right counter, its cursor in range and page 0
-- reserved: a page that `alloc_page` handed out, or one of the pages that `alloc_pages` did, lies in
-- nothing that any later calls of the two hand out, as long as no call of `free_page` among them gives
-- it back, or an address below 4096.
pub held_page :
    (c : Call) (cs : List Call) (p : Pmm) (k : ℕ)
    → Inv p
    → AboveZero cs
    → Holds k cs
    → (step p c).1 ≢ 0
    → (step p c).1 ≤ k * page_size
    → k * page_size < (step p c).1 + pages_asked c * page_size
    → NeverGives k (step p c).0 cs
held_page c cs p k i a h ne lo hi =
    let (inv, lt, used) = first_gave c p k i ne lo hi in
    never_gives cs (step p c).0 k inv lt used a h
