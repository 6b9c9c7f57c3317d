-- ===== src/Shell/Tests.antt =====
-- The shell's history (userland/rust/sh/src/history.rs) at concrete inputs.
use anss_os.Common.{
  Bool, Bytes, Option, [], arith, bytes_eq, codes, false, is_empty, length, none, refl, some, true,
  ◌+◌, ◌∷◌, ◌≡◌, ◌≤◌, ◌⊎◌,
}
use anss_os.Shell.Complete.{common_prefix, AllAscii, AllBegin, common_prefix_lem}
use anss_os.Shell.History.{starts_with, History, add, search}
use anss_os.Shell.Recall.{IsOlder, IsNewer, IsKept, Newest, Saved, search_lem, add-IsKept}

abbrev three_lines : History
three_lines = codes "ls" ∷ codes "cat a" ∷ codes "ls b" ∷ []

search_lem_example :
    IsOlder three_lines (codes "ls") 1 (search three_lines (codes "ls") (some 1) true)
    × IsNewer three_lines (codes "ls") (1 + 1) 3 (search three_lines (codes "ls") (some 1) false)
    × IsOlder three_lines (codes "ls") 3 (search three_lines (codes "ls") none true)
    × (search three_lines (codes "ls") none false ≡ none)
search_lem_example = search_lem three_lines (codes "ls") 1 (omega arith)

abbrev no_trim : Bytes → Bytes
no_trim bs = bs

abbrev all_utf8 : Bytes → Bool
all_utf8 bs = true

three_lines-IsKept : IsKept no_trim all_utf8 three_lines
unfolding bytes_eq
three_lines-IsKept = record {
  distinct = ((refl, (refl, tt)), ((refl, tt), (tt, tt)));
  bounded = omega arith;
  loads = (
    ((refl, (refl, tt)), refl, refl),
    (
      ((refl, (refl, (refl, (refl, (refl, tt))))), refl, refl),
      (((refl, (refl, (refl, (refl, tt)))), refl, refl), tt),
    ),
  );
}

abbrev added : History × Option Bytes
added = add no_trim all_utf8 true three_lines (codes "ls")

add-IsKept_example :
    IsKept no_trim all_utf8 added.0
    × ((is_empty (codes "ls") ≡ true) × (added ≡ (three_lines, none))
        ⊎ Newest no_trim all_utf8 three_lines (codes "ls") added.0
          × Saved no_trim all_utf8 true added.1 added.0)
add-IsKept_example =
    add-IsKept no_trim all_utf8 true three_lines (codes "ls") refl refl refl (refl, (refl, tt))
      three_lines-IsKept

three_ascii : AllAscii (codes "cat")
three_ascii = (omega arith, (omega arith, (omega arith, tt)))

c_begins : AllBegin (codes "c") (codes "cat" ∷ codes "cap" ∷ [])
unfolding starts_with
c_begins = (refl, (refl, tt))

common_prefix_lem_example :
    (p : Bytes) × (common_prefix (codes "cat" ∷ codes "cap" ∷ []) ≡ some p)
    × AllBegin p (codes "cat" ∷ codes "cap" ∷ [])
    × (1 ≤ length p)
common_prefix_lem_example =
    common_prefix_lem (codes "c") (codes "cat") (codes "cap" ∷ []) three_ascii c_begins
