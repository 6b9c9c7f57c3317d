-- ===== src/Shell/Matches.antt =====
-- userland/rust/sh/src/history.rs: the items that a search looks for, and the two loops over them.
use native.Mathlib.Decide.{ℕ_discrete}
use anss_os.Common.{
  Bool-cases, Bytes, Option, [], ap, ap₂, arith, bytes_eq, false, get_elem?, inl, inr, length, none,
  not, refl, some, subst, suc, true, zero, ℕ, ◌&&◌, ◌++◌, ◌+◌, ◌<◌, ◌∷◌, ◌≡◌, ◌≤◌,
}
use anss_os.Shell.History.{History, starts_with, matches, find_older, find_newer}

-- `r` is the last match below `end`, or nothing if there is none.
abbrev pub LastMatch : History → Bytes → ℕ → Option ℕ → Type 0
LastMatch items prefix end none = (j : ℕ) → j < end → matches items prefix j ≡ false
LastMatch items prefix end (some i) =
    (i < end)
    × (matches items prefix i ≡ true)
    × ((j : ℕ) → i < j → j < end → matches items prefix j ≡ false)

-- `r` is the first match from `start` on and below `end`, or nothing if there is none.
abbrev pub FirstMatch : History → Bytes → ℕ → ℕ → Option ℕ → Type 0
FirstMatch items prefix start end none =
    (j : ℕ) → start ≤ j → j < end → matches items prefix j ≡ false
FirstMatch items prefix start end (some i) =
    (start ≤ i)
    × (i < end)
    × (matches items prefix i ≡ true)
    × ((j : ℕ) → start ≤ j → j < i → matches items prefix j ≡ false)

false_at :
    (items : History) (prefix : Bytes) (i j : ℕ)
    → matches items prefix i ≡ false
    → i ≡ j
    → matches items prefix j ≡ false
false_at items prefix i j m e = subst (λ k. matches items prefix k ≡ false) e m

widen :
    (items : History) (prefix : Bytes) (n i : ℕ)
    → matches items prefix n ≡ false
    → ((j : ℕ) → i ≤ j → j < n → matches items prefix j ≡ false)
    → (j : ℕ) → i ≤ j
    → j < n + 1
    → matches items prefix j ≡ false
widen items prefix n i m h j le lt = elim (ℕ_discrete n j) [
  | yes e ↦ false_at items prefix n j m e
  | no ne ↦ h j le (ground arith)
]

widen_down :
    (items : History) (prefix : Bytes) (start end : ℕ)
    → matches items prefix start ≡ false
    → ((j : ℕ) → start + 1 ≤ j → j < end → matches items prefix j ≡ false)
    → (j : ℕ) → start ≤ j
    → j < end
    → matches items prefix j ≡ false
widen_down items prefix start end m h j le lt = elim (ℕ_discrete start j) [
  | yes e ↦ false_at items prefix start j m e
  | no ne ↦ h j (ground arith) lt
]

LastMatch-suc :
    (items : History) (prefix : Bytes) (n : ℕ) (r : Option ℕ)
    → matches items prefix n ≡ false
    → LastMatch items prefix n r
    → LastMatch items prefix (suc n) r
LastMatch-suc items prefix n none m h =
    λ j lt. widen items prefix n 0 m (λ k _ l. h k l) j (ground arith) (ground arith)
LastMatch-suc items prefix n (some i) m h = (
  ground arith,
  h.1,
  λ j l lt.
      widen items prefix n (i + 1) m (λ k a b. h.2 k (ground arith) b) j (ground arith)
        (ground arith),
)

pub find_older_lem :
    (items : History) (prefix : Bytes) (end : ℕ)
    → LastMatch items prefix end (find_older items prefix end)
unfolding find_older
find_older_lem items prefix zero = λ j lt. absurd (ground arith)
find_older_lem items prefix (suc n) = elim (Bool-cases (matches items prefix n)) [
  | inl m ↦ rw m (ground arith, m, λ j l lt. absurd (ground arith))
  | inr m ↦
      rw m
        (LastMatch-suc items prefix n (find_older items prefix n) m (find_older_lem items prefix n))
]

FirstMatch-down :
    (items : History) (prefix : Bytes) (start end : ℕ) (r : Option ℕ)
    → matches items prefix start ≡ false
    → FirstMatch items prefix (start + 1) end r
    → FirstMatch items prefix start end r
FirstMatch-down items prefix start end none m h = widen_down items prefix start end m h
FirstMatch-down items prefix start end (some i) m h =
    (ground arith, h.1, h.2, widen_down items prefix start i m h.3)

pub find_newer_lem :
    (items : History) (prefix : Bytes) (n start : ℕ)
    → FirstMatch items prefix start (start + n) (find_newer items prefix n start)
unfolding find_newer
find_newer_lem items prefix zero start = λ j le lt. absurd (ground arith)
find_newer_lem items prefix (suc n) start = elim (Bool-cases (matches items prefix start)) [
  | inl m ↦ rw m (ground arith, ground arith, m, λ j l lt. absurd (ground arith))
  | inr m ↦ rw m (
      FirstMatch-down items prefix start (start + suc n) (find_newer items prefix n (start + 1)) m (
        subst (λ e. FirstMatch items prefix (start + 1) e (find_newer items prefix n (start + 1)))
          (ground arith) (find_newer_lem items prefix n (start + 1))))
]

-- Item `i` starts with the prefix and goes on after it.
abbrev pub Longer : History → Bytes → ℕ → Type 0
Longer items prefix i =
    (rest : Bytes) × (1 ≤ length rest) × (get_elem? items i ≡ some (prefix ++ rest))

some_eq : (l m : Bytes) → some l ≡ some m → l ≡ m
some_eq l m e = cc

line_longer :
    (prefix l : Bytes)
    → (starts_with prefix l && not (bytes_eq l prefix)) ≡ true
    → (rest : Bytes) × (1 ≤ length rest) × (l ≡ prefix ++ rest)
unfolding starts_with bytes_eq
line_longer [] [] h = absurd (ground arith)
line_longer [] (y ∷ ys) h = (y ∷ ys, omega arith, refl)
line_longer (x ∷ xs) [] h = absurd (ground arith)
line_longer (x ∷ xs) (y ∷ ys) h =
    let (rest, pos, e) = line_longer xs ys (ground arith) in (rest, pos, ap₂ ◌∷◌ (ground arith) e)

longer_line :
    (prefix rest : Bytes)
    → 1 ≤ length rest
    → (starts_with prefix (prefix ++ rest) && not (bytes_eq (prefix ++ rest) prefix)) ≡ true
unfolding starts_with bytes_eq
longer_line [] [] h = absurd (omega arith)
longer_line [] (y ∷ ys) h = refl
longer_line (x ∷ xs) rest h = ground (arith, longer_line xs rest h)

no_line : (p : Bytes) → (starts_with p [] && not (bytes_eq [] p)) ≡ false
unfolding starts_with bytes_eq
no_line [] = refl
no_line (x ∷ xs) = refl

pub matches→Longer :
    (items : History) (prefix : Bytes) (i : ℕ)
    → matches items prefix i ≡ true
    → Longer items prefix i
unfolding matches
matches→Longer [] prefix i h = absurd (ground (arith, no_line prefix))
matches→Longer (l ∷ ls) prefix zero h =
    let (rest, pos, e) = line_longer prefix l h in (rest, pos, ap some e)
matches→Longer (l ∷ ls) prefix (suc i) h = unfold matches in matches→Longer ls prefix i h

Longer→matches :
    (items : History) (prefix : Bytes) (i : ℕ)
    → Longer items prefix i
    → matches items prefix i ≡ true
unfolding matches
Longer→matches [] prefix i (rest, pos, e) = absurd cc
Longer→matches (l ∷ ls) prefix zero (rest, pos, e) =
    rw (some_eq l (prefix ++ rest) e) (longer_line prefix rest pos)
Longer→matches (l ∷ ls) prefix (suc i) t = unfold matches in Longer→matches ls prefix i t

pub not-Longer :
    (items : History) (prefix : Bytes) (i : ℕ)
    → matches items prefix i ≡ false
    → ¬ Longer items prefix i
not-Longer items prefix i e = λ t. absurd (ground (arith, e, Longer→matches items prefix i t))
