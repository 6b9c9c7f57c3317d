-- ===== src/Shell/Kept.antt =====
-- userland/rust/sh/src/history.rs: the lines of the history, and the file they are saved to.
use anss_os.Common.{
  Bool, Bool-cases, Bytes, [], ap, append-nil, append_assoc, arith, bytes_eq, bytes_eq→eq, false,
  inl, inr, is_empty, length, refl, remove, subst, sym, true, ◌++◌, ◌-◌, ◌==◌, ◌∙◌, ◌∷◌, ◌≡◌, ◌≤◌,
  ◌⊎◌,
}
use anss_os.Shell.History.{
  History, newline, max_items, split_lines, retain_other, saved_bytes, keep_lines, load,
}

-- A line stands in the history once at most.
abbrev pub Absent : Bytes → History → Type 0
Absent line [] = Unit
Absent line (l ∷ ls) = (bytes_eq l line ≡ false) × Absent line ls

abbrev pub Distinct : History → Type 0
Distinct [] = Unit
Distinct (l ∷ ls) = Absent l ls × Distinct ls

pub retain_other-Absent : (line : Bytes) (ls : History) → Absent line (retain_other line ls)
unfolding retain_other
retain_other-Absent line [] = tt
retain_other-Absent line (l ∷ ls) = ground (arith, retain_other-Absent line ls)

Absent-retain_other :
    (k line : Bytes) (ls : History) → Absent k ls → Absent k (retain_other line ls)
unfolding retain_other
Absent-retain_other k line [] h = tt
Absent-retain_other k line (l ∷ ls) h = ground (arith, Absent-retain_other k line ls h.1)

pub Distinct-retain_other :
    (line : Bytes) (ls : History) → Distinct ls → Distinct (retain_other line ls)
unfolding retain_other
Distinct-retain_other line [] h = tt
Distinct-retain_other line (l ∷ ls) h =
    ground (arith, Distinct-retain_other line ls h.1, Absent-retain_other l line ls h.0)

bytes_eq_comm : (xs ys : Bytes) → bytes_eq xs ys ≡ bytes_eq ys xs
unfolding bytes_eq
bytes_eq_comm [] [] = refl
bytes_eq_comm [] (y ∷ ys) = refl
bytes_eq_comm (x ∷ xs) [] = refl
bytes_eq_comm (x ∷ xs) (y ∷ ys) = ground (arith, bytes_eq_comm xs ys)

Absent-snoc :
    (k line : Bytes) (ls : History)
    → Absent k ls
    → bytes_eq line k ≡ false
    → Absent k (ls ++ line ∷ [])
Absent-snoc k line [] h e = (e, tt)
Absent-snoc k line (l ∷ ls) h e = (h.0, Absent-snoc k line ls h.1 e)

pub Distinct-snoc :
    (line : Bytes) (ls : History) → Distinct ls → Absent line ls → Distinct (ls ++ line ∷ [])
Distinct-snoc line [] d a = (tt, tt)
Distinct-snoc line (l ∷ ls) d a =
    (Absent-snoc l line ls d.0 (bytes_eq_comm line l ∙ a.0), Distinct-snoc line ls d.1 a.1)

pub Distinct-remove : (ls : History) → Distinct ls → Distinct (remove ls 0)
Distinct-remove [] d = tt
Distinct-remove (l ∷ ls) d = d.1

-- The history without the line: it was not there, or it was taken out where it stood.
abbrev pub Without : Bytes → History → History → Type 0
Without line items others =
    (Absent line items × (others ≡ items))
    ⊎ ((before : History) × (after : History) × (items ≡ before ++ line ∷ after)
        × (others ≡ before ++ after))

retain_all : (line : Bytes) (ls : History) → Absent line ls → retain_other line ls ≡ ls
unfolding retain_other
retain_all line [] a = refl
retain_all line (l ∷ ls) (other, a) = rw (other, retain_all line ls a) refl

Without-cons :
    (line l : Bytes) (ls others : History)
    → bytes_eq l line ≡ false
    → Without line ls others
    → Without line (l ∷ ls) (l ∷ others)
Without-cons line l ls others other (inl (a, e)) = inl ((other, a), ap (◌∷◌ l) e)
Without-cons line l ls others other (inr (before, after, e, e')) =
    inr (l ∷ before, after, ap (◌∷◌ l) e, ap (◌∷◌ l) e')

retain_next :
    (line l : Bytes) (ls : History)
    → bytes_eq l line ≡ false
    → retain_other line (l ∷ ls) ≡ l ∷ retain_other line ls
unfolding retain_other
retain_next line l ls other = rw other refl

pub retain_other-Without :
    (line : Bytes) (ls : History) → Distinct ls → Without line ls (retain_other line ls)
unfolding retain_other
retain_other-Without line [] d = inl (tt, refl)
retain_other-Without line (l ∷ ls) (a, d) = elim (Bool-cases (bytes_eq l line)) [
  | inl same ↦
      let e = bytes_eq→eq l line same in
      rw same (inr ([], ls, ap (λ k. k ∷ ls) e, retain_all line ls (subst (λ k. Absent k ls) e a)))
  | inr other ↦
      subst (Without line (l ∷ ls)) (sym (retain_next line l ls other))
        (Without-cons line l ls (retain_other line ls) other (retain_other-Without line ls d))
]

-- A line of one piece.
abbrev pub OneLine : Bytes → Type 0
OneLine [] = Unit
OneLine (b ∷ bs) = ((b == newline) ≡ false) × OneLine bs

split-line :
    (acc l rest : Bytes)
    → OneLine l
    → split_lines acc (l ++ newline ∷ rest) ≡ (acc ++ l) ∷ split_lines [] rest
unfolding split_lines
split-line acc [] rest o = rw append-nil refl
split-line acc (b ∷ bs) rest (other, o) =
    rw (other, split-line (acc ++ b ∷ []) bs rest o, append_assoc) refl

module _ (trim : Bytes → Bytes) (utf8 : Bytes → Bool) where
  -- A line that `load` keeps.
  abbrev pub Loadable : Bytes → Type 0
  Loadable l = OneLine l × (utf8 l ≡ true) × (is_empty (trim l) ≡ false)

  abbrev pub Loads : History → Type 0
  Loads [] = Unit
  Loads (l ∷ ls) = Loadable l × Loads ls

  pub retain_other-Loads : (line : Bytes) (ls : History) → Loads ls → Loads (retain_other line ls)
  unfolding retain_other
  retain_other-Loads line [] h = tt
  retain_other-Loads line (l ∷ ls) (k, h) = elim (Bool-cases (bytes_eq l line)) [
    | inl same ↦ rw same (retain_other-Loads line ls h)
    | inr other ↦ rw other (k, retain_other-Loads line ls h)
  ]

  pub Loads-snoc :
      (line : Bytes) (ls : History) → Loads ls → Loadable line → Loads (ls ++ line ∷ [])
  Loads-snoc line [] h k = (k, tt)
  Loads-snoc line (l ∷ ls) (a, h) k = (a, Loads-snoc line ls h k)

  pub Loads-remove : (ls : History) → Loads ls → Loads (remove ls 0)
  Loads-remove [] h = tt
  Loads-remove (l ∷ ls) (a, h) = h

  keep_saved :
      (ls : History)
      → trim [] ≡ []
      → Loads ls
      → keep_lines trim utf8 (split_lines [] (saved_bytes ls)) ≡ ls
  unfolding keep_lines saved_bytes split_lines
  keep_saved [] blank h = elim (Bool-cases (utf8 [])) [
    | inl valid ↦ rw (valid, blank) refl
    | inr bad ↦ rw bad refl
  ]
  keep_saved (l ∷ ls) blank ((o, valid, some_text), h) =
      rw (split-line [] l (saved_bytes ls) o, valid, some_text, keep_saved ls blank h) refl

  pub saved-load :
      (ls : History)
      → trim [] ≡ []
      → length ls ≤ max_items
      → Loads ls
      → load trim utf8 (saved_bytes ls) ≡ ls
  unfolding load
  saved-load ls blank few h = rw (keep_saved ls blank h, all) refl
    where
      all : length ls - max_items ≡ 0
      all = omega arith
