-- ===== src/Shell/Recall.antt =====
-- userland/rust/sh/src/history.rs: what a search of the history finds, and what `add` makes of it.
use anss_os.Common.{
  Bool, Bool-cases, Bytes, Option, [], ap, arith, false, if◌then◌else◌, inl, inr, is_empty, length,
  length-append, length-remove, ltb, none, refl, remove, some, subst, true, ℕ, ◌++◌, ◌+◌, ◌-◌, ◌<◌,
  ◌∙◌, ◌∷◌, ◌≡◌, ◌≤◌, ◌⊎◌,
}
use anss_os.Shell.Matches.{
  LastMatch, FirstMatch, find_older_lem, find_newer_lem, Longer, matches→Longer, not-Longer,
}
use anss_os.Shell.History.{
  load, History, max_items, retain_other, add, saved_bytes, find_older, find_newer, search,
}
use anss_os.Shell.Kept.{
  Without, retain_other-Without, retain_other-Loads, Loads-snoc, Loads-remove, OneLine, Loadable,
  Loads, saved-load, Distinct, retain_other-Absent, Distinct-retain_other, Distinct-snoc,
  Distinct-remove,
}

-- The last item below `end` that starts with the prefix and is longer, or nothing if there is none.
abbrev pub IsOlder : History → Bytes → ℕ → Option ℕ → Type 0
IsOlder items prefix end none = (j : ℕ) → j < end → ¬ Longer items prefix j
IsOlder items prefix end (some i) =
    (i < end) × Longer items prefix i × ((j : ℕ) → i < j → j < end → ¬ Longer items prefix j)

-- The first such item from `start` on and below `end`, or nothing if there is none.
abbrev pub IsNewer : History → Bytes → ℕ → ℕ → Option ℕ → Type 0
IsNewer items prefix start end none = (j : ℕ) → start ≤ j → j < end → ¬ Longer items prefix j
IsNewer items prefix start end (some i) =
    (start ≤ i)
    × (i < end)
    × Longer items prefix i
    × ((j : ℕ) → start ≤ j → j < i → ¬ Longer items prefix j)

LastMatch-IsOlder :
    (items : History) (prefix : Bytes) (end : ℕ) (r : Option ℕ)
    → LastMatch items prefix end r
    → IsOlder items prefix end r
LastMatch-IsOlder items prefix end none h = λ j lt. not-Longer items prefix j (h j lt)
LastMatch-IsOlder items prefix end (some i) (lt, m, h) =
    (lt, matches→Longer items prefix i m, λ j l u. not-Longer items prefix j (h j l u))

FirstMatch-IsNewer :
    (items : History) (prefix : Bytes) (start end : ℕ) (r : Option ℕ)
    → FirstMatch items prefix start end r
    → IsNewer items prefix start end r
FirstMatch-IsNewer items prefix start end none h = λ j l u. not-Longer items prefix j (h j l u)
FirstMatch-IsNewer items prefix start end (some i) (le, lt, m, h) =
    (le, lt, matches→Longer items prefix i m, λ j l u. not-Longer items prefix j (h j l u))

newer_from :
    (items : History) (prefix : Bytes) (i : ℕ)
    → i < length items
    → FirstMatch items prefix
        (i + 1)
        (length items)
        (find_newer items prefix (length items - (i + 1)) (i + 1))
newer_from items prefix i lt =
    subst
      (λ e.
        FirstMatch items prefix (i + 1) e
          (find_newer items prefix (length items - (i + 1)) (i + 1)))
      (ground arith) (find_newer_lem items prefix (length items - (i + 1)) (i + 1))

-- An item is looked for that starts with the prefix and is longer than it; one that equals the prefix
-- is passed over. Searching back from item `i` gives the last such item before it, and searching
-- forward the first after it; from past the newest item, searching back gives the last of all, and
-- searching forward nothing. With no such item there, the search gives nothing.
pub search_lem :
    (items : History) (prefix : Bytes) (i : ℕ)
    → i < length items
    → IsOlder items prefix i (search items prefix (some i) true)
      × IsNewer items prefix (i + 1) (length items) (search items prefix (some i) false)
      × IsOlder items prefix (length items) (search items prefix none true)
      × (search items prefix none false ≡ none)
unfolding search
search_lem items prefix i lt = (
  LastMatch-IsOlder items prefix i (find_older items prefix i) (find_older_lem items prefix i),
  FirstMatch-IsNewer items prefix (i + 1) (length items)
      (find_newer items prefix (length items - (i + 1)) (i + 1)) (newer_from items prefix i lt),
  LastMatch-IsOlder items prefix (length items) (find_older items prefix (length items))
      (find_older_lem items prefix (length items)),
  refl,
)

length-retain_other : (line : Bytes) (ls : History) → length (retain_other line ls) ≤ length ls
unfolding retain_other
length-retain_other line [] = ground arith
length-retain_other line (l ∷ ls) = ground (arith, length-retain_other line ls)

-- The newest line of the history.
abbrev pub EndsWith : History → Bytes → Type 0
EndsWith items line = (older : History) × (items ≡ older ++ line ∷ [])

-- A history `add` keeps up: no line twice, not more than the most, and each one that `load` keeps.
pub record IsKept (trim : Bytes → Bytes) (utf8 : Bytes → Bool) (items : History) : Type 0 where
  pub distinct : Distinct items
  pub bounded : length items ≤ max_items
  pub loads : Loads trim utf8 items

remove-append :
    (ls : History) (line : Bytes)
    → 1 ≤ length ls
    → remove (ls ++ line ∷ []) 0 ≡ remove ls 0 ++ line ∷ []
remove-append [] line h = absurd (ground arith)
remove-append (l ∷ ls) line h = refl

-- The history with the line at its end, and nowhere else.
abbrev newest : History → Bytes → History
newest items line = retain_other line items ++ line ∷ []

-- At most one line went, the oldest, and only if as many as there may be are left.
abbrev pub DropsOne : History → History → History → Type 0
DropsOne gone left whole =
    (gone ++ left ≡ whole) × ((gone ≡ []) ⊎ (length gone ≡ 1) × (length left ≡ max_items))

remove_first :
    (ls : History) → length ls ≡ max_items + 1 → (g : History) × DropsOne g (remove ls 0) ls
remove_first [] e = absurd (omega arith)
remove_first (l ∷ ls) e = (l ∷ [], (refl, inr (refl, omega arith)))

module _ (trim : Bytes → Bytes) (utf8 : Bytes → Bool) where
  -- What `save` gives to `write_all`, if the file could be created: bytes that load as the history.
  abbrev pub Saved : Bool → Option Bytes → History → Type 0
  Saved false out items = out ≡ none
  Saved true out items = (file : Bytes) × (out ≡ some file) × (load trim utf8 file ≡ items)

  save-Saved :
      (creates : Bool) (items : History)
      → trim [] ≡ []
      → IsKept trim utf8 items
      → Saved creates (if creates then some (saved_bytes items) else none) items
  save-Saved false items blank k = refl
  save-Saved true items blank k =
      (saved_bytes items, refl, saved-load trim utf8 items blank k.bounded k.loads)

  -- The line at the end of the history, and no more than it and the overflow changed.
  abbrev pub Newest : History → Bytes → History → Type 0
  Newest items line left =
      EndsWith left line
      × ((others : History) × (gone : History) × Without line items others
          × DropsOne gone left (others ++ line ∷ []))

  module _ (items : History) (line : Bytes) (k : IsKept trim utf8 items)
      (loadable : Loadable trim utf8 line) where
    newest-Distinct : Distinct (newest items line)
    newest-Distinct =
        Distinct-snoc line (retain_other line items) (Distinct-retain_other line items k.distinct)
          (retain_other-Absent line items)

    newest-Loads : Loads trim utf8 (newest items line)
    newest-Loads =
        Loads-snoc trim utf8 line (retain_other line items)
          (retain_other-Loads trim utf8 line items k.loads) loadable

    newest-length : length (newest items line) ≤ max_items + 1
    newest-length = ground (
      arith,
      length-append (retain_other line items) (line ∷ []),
      length-retain_other line items,
      k.bounded,
    )

    -- The oldest goes when there is one line too many.
    trimmed-IsKept :
        (b : Bool)
        → ltb max_items (length (newest items line)) ≡ b
        → IsKept trim utf8 (if b then remove (newest items line) 0 else newest items line)
          × Newest items line (if b then remove (newest items line) 0 else newest items line)
    trimmed-IsKept false e = (
      record { distinct = newest-Distinct; bounded = ground arith; loads = newest-Loads },
      (
        (retain_other line items, refl),
        (retain_other line items, [], retain_other-Without line items k.distinct, (refl, inl refl)),
      ),
    )
    trimmed-IsKept true e = (
      record {
        distinct = Distinct-remove (newest items line) newest-Distinct;
        bounded = ground (arith, newest-length, length-remove (newest items line) 0 (ground arith));
        loads = Loads-remove trim utf8 (newest items line) newest-Loads;
      },
      (
        (
          remove (retain_other line items) 0,
          remove-append (retain_other line items) line
              (ground (arith, length-append (retain_other line items) (line ∷ []))),
        ),
        dropped (remove_first (newest items line) (ground (arith, newest-length))),
      ),
    )
      where
        dropped :
            (g : History) × DropsOne g (remove (newest items line) 0) (newest items line)
            → (others : History) × (gone : History) × Without line items others
              × DropsOne gone (remove (newest items line) 0) (others ++ line ∷ [])
        dropped (gone, d) =
            (retain_other line items, gone, retain_other-Without line items k.distinct, d)

-- A typed line is added to a history with no line twice, at most 500 lines, and each of them UTF-8
-- without a newline and more than blanks. Trimming the empty text leaves it, and what trimming the
-- typed line leaves is UTF-8 without a newline and does not change when trimmed again. The new history
-- is again as the old one was. Either the trimmed line is empty, and then nothing changes and nothing
-- is written. Or the new history is the old one with the line taken out where it stood and put at the
-- end, less its oldest line where that makes one more than 500; then nothing is written if the file
-- cannot be created, and otherwise bytes that `load` turns into the new history again.
pub add-IsKept :
    (trim : Bytes → Bytes) (utf8 : Bytes → Bool) (creates : Bool) (items : History) (typed : Bytes)
    → trim [] ≡ []
    → trim (trim typed) ≡ trim typed
    → utf8 (trim typed) ≡ true
    → OneLine (trim typed)
    → IsKept trim utf8 items
    → let r = add trim utf8 creates items typed in
      IsKept trim utf8 r.0
      × ((is_empty (trim typed) ≡ true) × (r ≡ (items, none))
          ⊎ Newest trim utf8 items (trim typed) r.0 × Saved trim utf8 creates r.1 r.0)
unfolding add
add-IsKept trim utf8 creates items typed blank again valid one k =
    elim (Bool-cases (is_empty (trim typed))) [
      | inl e ↦ rw e (k, inl (refl, refl))
      | inr e ↦ rw e (
          let (kept, newest_line) =
            trimmed-IsKept trim utf8 items (trim typed) k (one, valid, ap is_empty again ∙ e) _
              refl in
          (kept, inr (newest_line, save-Saved trim utf8 creates _ blank kept)))
    ]
