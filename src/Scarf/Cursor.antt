-- ===== src/Scarf/Cursor.antt =====
-- The cursor of userland/rust/scarf/src/editor.rs: on the text in every mode, whatever is typed.
use anss_os.Common.{
  Bool, Bytes, Ensures, List, Option, [], arith, check, drop, get_elem?, length, length-drop,
  length-set, ltb, not, refl, set, some, suc, take, zero, ℕ, ◌++◌, ◌+◌, ◌-◌, ◌<◌, ◌==◌, ◌>>=◌, ◌||◌,
  ◌∷◌, ◌≡◌, ◌≤◌,
}
use anss_os.Scarf.Editor.{
  Editor, Mode, normal, insert, command, lines, line, set_line, max_cx, clamp_cx, skip_while,
  is_word, next_word, word_forward, back_to_word, back_over_word, word_back, delete_word,
}

-- The length of a line, 0 past the last.
abbrev pub line_length : List Bytes → ℕ → ℕ
line_length [] i = 0
line_length (l ∷ ls) zero = length l
line_length (l ∷ ls) (suc i) = line_length ls i

-- How far right the cursor may stand: just past the end while inserting, else on a character.
abbrev pub limit : Mode → ℕ → ℕ
limit insert n = n
limit normal n = n - 1
limit command n = n - 1

pub record OnText (e : Editor) : Type 0 where
  pub row_in : e.cy < length (lines e)
  pub column_in : e.cx ≤ limit e.mode (line_length (lines e) e.cy)

-- The weaker form that holds before the cursor is clamped.
abbrev pub OnRow : Editor → Type 0
OnRow e = e.cy < length (lines e)

pub line_found :
    (ls : List Bytes) (i : ℕ)
    → i < length ls
    → (l : Bytes) × (get_elem? ls i ≡ some l) × (line_length ls i ≡ length l)
line_found [] i h = absurd (omega arith)
line_found (l ∷ ls) zero h = (l, refl, refl)
line_found (l ∷ ls) (suc i) h = line_found ls i (omega arith)

max_cx-eq-limit : (m : Mode) (n : ℕ) → max_cx m n ≡ limit m n
unfolding max_cx
max_cx-eq-limit normal n = ground arith
max_cx-eq-limit insert n = ground arith
max_cx-eq-limit command n = ground arith

-- Code that reads the cursor's line goes on with it.
pub line_cases :
    (P : Editor → Type 0) (e : Editor) (f : Bytes → Option Editor)
    → e.cy < length (lines e)
    → ((l : Bytes)
        → line_length (lines e) e.cy ≡ length l
        → get_elem? (lines e) e.cy ≡ some l
        → Ensures P (f l))
    → Ensures P (line e >>= f)
line_cases P e f h k = let (l, found, len) = line_found (lines e) e.cy h in rw found (k l len found)

pub limit_bounds : (m : Mode) (n : ℕ) → (n - 1 ≤ limit m n) × (limit m n ≤ n)
limit_bounds normal n = omega arith
limit_bounds insert n = omega arith
limit_bounds command n = omega arith

pub line_length-set :
    (ls : List Bytes) (i : ℕ) (l : Bytes) → i < length ls → line_length (set ls i l) i ≡ length l
line_length-set [] i l h = absurd (omega arith)
line_length-set (x ∷ ls) zero l h = refl
line_length-set (x ∷ ls) (suc i) l h = line_length-set ls i l (omega arith)

pub clamp_cx-OnText : (e : Editor) → OnRow e → Ensures OnText (clamp_cx e)
unfolding clamp_cx
clamp_cx-OnText e h =
    line_cases OnText e _ h λ l len found. ground (arith, max_cx-eq-limit e.mode (length l))

-- The loops of the word motions stay on the line.
skip_while_bounds :
    (p : ℕ → Bool) (xs : Bytes) (i : ℕ)
    → (i ≤ skip_while p xs i) × (skip_while p xs i ≤ i + length xs)
unfolding skip_while
skip_while_bounds p [] i = omega arith
skip_while_bounds p (x ∷ xs) i = ground (arith, skip_while_bounds p xs (i + 1))

pub next_word_bounds :
    (l : Bytes) (i : ℕ) → i ≤ length l → (i ≤ next_word l i) × (next_word l i ≤ length l)
unfolding next_word
next_word_bounds l i h = ground (
  arith,
  length-drop i l,
  skip_while_bounds is_word (drop i l) i,
  length-drop (skip_while is_word (drop i l) i) l,
  skip_while_bounds (λ c. not (is_word c)) (drop (skip_while is_word (drop i l) i) l)
      (skip_while is_word (drop i l) i),
)

back_to_word-le : (l : Bytes) (i : ℕ) → back_to_word l i ≤ i
unfolding back_to_word
back_to_word-le l zero = omega arith
back_to_word-le l (suc i) = ground (arith, back_to_word-le l i)

back_over_word-le : (l : Bytes) (i : ℕ) → back_over_word l i ≤ i
unfolding back_over_word
back_over_word-le l zero = omega arith
back_over_word-le l (suc i) = ground (arith, back_over_word-le l i)

pub OnText-row : (e : Editor) → OnText e → e.cx ≤ line_length (lines e) e.cy
OnText-row e t = omega (arith, t.column_in, limit_bounds e.mode (line_length (lines e) e.cy))

-- `word_forward` and `word_back` may leave the cursor past the last character: their callers clamp.
pub word_forward-row : (e : Editor) → OnText e → Ensures OnRow (word_forward e)
unfolding word_forward
word_forward-row e t = line_cases OnRow e _ t.row_in λ l len found. ground arith

pub word_back-row : (e : Editor) → OnText e → Ensures OnRow (word_back e)
unfolding word_back
word_back-row e t = ground (
  arith,
  line_cases OnRow (record e { cy = e.cy - 1 })
      (λ l. some (record e { cy = e.cy - 1; cx = length l - 1 })) (omega arith)
      (λ l len found. omega arith),
  line_cases OnRow e
      (λ l.
        check (e.cx - 1 == 0 || ltb (e.cx - 1) (length l))
          (record e { cx = back_over_word l (back_to_word l (e.cx - 1)) }))
      t.row_in (λ l len found. ground (arith, OnText-row e t)),
)

pub delete_word-row : (e : Editor) → OnText e → Ensures OnRow (delete_word e)
unfolding delete_word set_line
delete_word-row e t = line_cases OnRow e _ t.row_in λ l len found.
    ground (arith, length-set (lines e) e.cy (take e.cx l ++ drop (next_word l e.cx) l))
