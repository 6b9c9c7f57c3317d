-- ===== src/Pmm/Tests.antt =====
-- The page allocator (kernel/src/mm/pmm.rs) at concrete inputs.
use anss_os.Common.{
  List, [], arith, false, if◌then◌else◌, ltb, refl, ◌&&◌, ◌+◌, ◌/◌, ◌==◌, ◌∷◌, ◌≡◌,
}
use anss_os.Pmm.{
  Pmm, page_size, test, try_alloc_from, try_alloc_loop, set_page, alloc_page, free_page,
  alloc_pages,
}
use anss_os.Pmm.Count.{Inv, count_free}
use anss_os.Pmm.Single.{GivesPage, alloc_page_lem, free_page_lem}
use anss_os.Pmm.Runs.{GivesRun, alloc_pages_lem}
use anss_os.Pmm.Session.{Call, one, many, give_back, step, run, run-Inv, NeverGives, held_page}

-- Four pages, the first and the third in use.
abbrev four_pages : Pmm
four_pages = record { bitmap = 5 ∷ []; total_pages = 4; free_pages = 2; cursor = 0 }

four_pages-Inv : Inv four_pages
unfolding test count_free
four_pages-Inv = record {
  covers = record { bytes = (omega arith, tt); enough = omega arith };
  counted = refl;
  cursor_in = omega arith;
  reserved = refl;
}

alloc_page_lem_example : GivesPage four_pages (alloc_page four_pages)
alloc_page_lem_example = alloc_page_lem four_pages four_pages-Inv

free_page_lem_example :
    (test (free_page four_pages 8200) 3
      ≡ (if 8200 / page_size == 3 then false else test four_pages 3))
    × ((free_page four_pages 8200).free_pages
        ≡ 2 + (if ltb (8200 / page_size) 4 && test four_pages (8200 / page_size) then 1 else 0))
free_page_lem_example = free_page_lem four_pages 8200 3 four_pages-Inv (omega arith)

abbrev some_calls : List Call
some_calls = one ∷ give_back 8192 ∷ many 2 ∷ []

run-Inv_example : Inv (run four_pages some_calls)
run-Inv_example = run-Inv some_calls four_pages four_pages-Inv (omega arith, tt)

-- The first call gives page 1.
first_page : (step four_pages one).1 ≡ 4096
unfolding step alloc_page try_alloc_from try_alloc_loop test set_page
first_page = ground arith

held_page_example : NeverGives 1 (step four_pages one).0 some_calls
held_page_example =
    held_page one some_calls four_pages 1 four_pages-Inv (omega arith, tt) (omega arith, tt)
      (omega (arith, first_page)) (omega (arith, first_page)) (omega (arith, first_page))

alloc_pages_lem_example : GivesRun four_pages 1 (alloc_pages four_pages 1)
alloc_pages_lem_example = alloc_pages_lem four_pages 1 four_pages-Inv (omega arith) (omega arith)
