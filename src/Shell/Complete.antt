-- ===== src/Shell/Complete.antt =====
-- userland/rust/sh/src/complete.rs: the word at the cursor, and what all candidates begin with.
use anss_os.Common.{
  Bool, Bytes, List, Option, [], arith, check, if◌then◌else◌, is_char_boundary, is_empty, length,
  length-take, min, none, refl, rfind, some, starts_char, suc, take, true, zero, ℕ, ◌+◌, ◌<◌, ◌==◌,
  ◌∷◌, ◌≡◌, ◌≤◌,
}
use anss_os.Shell.History.{starts_with}

-- `trim` is `str::trim`. Where the word starts, and whether it is the command.
unfoldable pub word_at : (Bytes → Bytes) → Bytes → ℕ → ℕ × Bool
word_at trim line cursor =
    let before = take cursor line in
    let start : ℕ = elim (rfind b' ' before) [ none ↦ 0 | some i ↦ i + 1 ] in
    (start, is_empty (trim (take start before)))

-- How many bytes the two begin with in common.
unfoldable pub agree : Bytes → Bytes → ℕ
agree [] ys = 0
agree (x ∷ xs) [] = 0
agree (x ∷ xs) (y ∷ ys) = let rest = agree xs ys in if x == y then suc rest else 0

unfoldable pub common_length : Bytes → List Bytes → ℕ → ℕ
common_length first [] len = len
common_length first (c ∷ cs) len = common_length first cs (min len (agree first c))

-- Of the candidates' texts; `none` is the panic of a cut inside a character.
unfoldable pub common_prefix : List Bytes → Option Bytes
common_prefix [] = some []
common_prefix (first ∷ cs) =
    let len = common_length first cs (length first) in
    check (is_char_boundary first len) (take len first)

abbrev pub AllAscii : Bytes → Type 0
AllAscii [] = Unit
AllAscii (b ∷ bs) = (b < 128) × AllAscii bs

abbrev pub AllBegin : Bytes → List Bytes → Type 0
AllBegin p [] = Unit
AllBegin p (c ∷ cs) = (starts_with p c ≡ true) × AllBegin p cs

begins-take : (n : ℕ) (x y : Bytes) → n ≤ agree x y → starts_with (take n x) y ≡ true
unfolding starts_with agree
begins-take zero x y h = refl
begins-take (suc n) [] y h = refl
begins-take (suc n) (x ∷ xs) [] h = absurd (omega arith)
begins-take (suc n) (x ∷ xs) (y ∷ ys) h = ground (arith, begins-take n xs ys)

length-agree :
    (q x y : Bytes) → starts_with q x ≡ true → starts_with q y ≡ true → length q ≤ agree x y
unfolding starts_with agree
length-agree [] x y h k = omega arith
length-agree (b ∷ bs) [] y h k = cc
length-agree (b ∷ bs) (x ∷ xs) [] h k = cc
length-agree (b ∷ bs) (x ∷ xs) (y ∷ ys) h k = ground (arith, length-agree bs xs ys)

begins-length : (q x : Bytes) → starts_with q x ≡ true → length q ≤ length x
unfolding starts_with
begins-length [] x h = omega arith
begins-length (b ∷ bs) [] h = cc
begins-length (b ∷ bs) (x ∷ xs) h = ground (arith, begins-length bs xs)

begins_self : (n : ℕ) (x : Bytes) → starts_with (take n x) x ≡ true
unfolding starts_with
begins_self zero x = refl
begins_self (suc n) [] = refl
begins_self (suc n) (x ∷ xs) = ground (arith, begins_self n xs)

common_length-le : (first : Bytes) (cs : List Bytes) (len : ℕ) → common_length first cs len ≤ len
unfolding common_length
common_length-le first [] len = omega arith
common_length-le first (c ∷ cs) len =
    omega (arith, common_length-le first cs (min len (agree first c)))

common_length-AllBegin :
    (first : Bytes) (cs : List Bytes) (len n : ℕ)
    → n ≤ common_length first cs len
    → AllBegin (take n first) cs
unfolding common_length
common_length-AllBegin first [] len n h = tt
common_length-AllBegin first (c ∷ cs) len n h = (
  begins-take n first c (omega (arith, common_length-le first cs (min len (agree first c)))),
  common_length-AllBegin first cs (min len (agree first c)) n h,
)

common_length-longest :
    (q first : Bytes) (cs : List Bytes) (len : ℕ)
    → length q ≤ len
    → starts_with q first ≡ true
    → AllBegin q cs
    → length q ≤ common_length first cs len
unfolding common_length
common_length-longest q first [] len h s a = h
common_length-longest q first (c ∷ cs) len h s a =
    common_length-longest q first cs (min len (agree first c))
      (omega (arith, length-agree q first c s a.0)) s a.1

ascii-starts_char : (x : Bytes) (n : ℕ) → AllAscii x → n < length x → starts_char x n ≡ true
unfolding starts_char
ascii-starts_char [] n a h = absurd (omega arith)
ascii-starts_char (b ∷ bs) zero a h = ground arith
ascii-starts_char (b ∷ bs) (suc n) a h = ascii-starts_char bs n a.1 (omega arith)

ascii-boundary : (x : Bytes) (n : ℕ) → AllAscii x → n ≤ length x → is_char_boundary x n ≡ true
unfolding is_char_boundary
ascii-boundary x n a h = ground (arith, ascii-starts_char x n a)

-- With an ASCII first candidate, `common_prefix` does not panic. What it returns begins every
-- candidate, and is at least as long as any `q` that begins them all.
pub common_prefix_lem :
    (q first : Bytes) (cs : List Bytes)
    → AllAscii first
    → AllBegin q (first ∷ cs)
    → (p : Bytes) × (common_prefix (first ∷ cs) ≡ some p)
      × AllBegin p (first ∷ cs)
      × (length q ≤ length p)
unfolding common_prefix
common_prefix_lem q first cs ascii a =
    let len = common_length first cs (length first) in
    let below = common_length-le first cs (length first) in
    (
      take len first,
      rw (ascii-boundary first len ascii below) refl,
      (begins_self len first, common_length-AllBegin first cs (length first) len (omega arith)),
      omega (
        arith,
        length-take len first,
        below,
        common_length-longest q first cs (length first) (begins-length q first a.0) a.0 a.1,
      ),
    )
