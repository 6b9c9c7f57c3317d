-- ===== src/Common/Text.antt =====
-- Byte strings as lists of numbers: comparison, prefixes, and the positions of a byte.
use Prim.Native.Nat.{ℕ, zero, suc, ◌+◌, min}
use Prim.Native.Char.{code}
use Prim.Native.String.{String}
use mathlib.Core.Path.{◌≡◌, refl}
use mathlib.Core.Bool.{Bool, true, false, ◌&&◌, ◌||◌}
use mathlib.Core.Option.{Option, none, some}
use mathlib.Core.List.{List, [], ◌∷◌, ◌++◌}
use native.Mathlib.Omega.{arith}
use anss_os.Common.Tests.{ltb, leb, ◌==◌, if◌then◌else◌}
use anss_os.Common.Arrays.{length, is_empty}

abbrev pub Bytes : Type 0
Bytes = List ℕ

-- The bytes of an ASCII text.
abbrev pub codes : String → Bytes
codes String.[] = []
codes (String.◌∷◌ c s) = code c ∷ codes s

unfoldable pub bytes_eq : Bytes → Bytes → Bool
bytes_eq [] [] = true
bytes_eq [] (y ∷ ys) = false
bytes_eq (x ∷ xs) [] = false
bytes_eq (x ∷ xs) (y ∷ ys) = x == y && bytes_eq xs ys

pub bytes_eq→eq : (xs ys : Bytes) → bytes_eq xs ys ≡ true → xs ≡ ys
unfolding bytes_eq
bytes_eq→eq [] [] h = refl
bytes_eq→eq [] (y ∷ ys) h = ground arith
bytes_eq→eq (x ∷ xs) [] h = ground arith
bytes_eq→eq (x ∷ xs) (y ∷ ys) h = ground (arith, bytes_eq→eq xs ys)

-- What follows a prefix, `none` if the text does not begin with it.
unfoldable pub strip_prefix : Bytes → Bytes → Option Bytes
strip_prefix [] ys = some ys
strip_prefix (x ∷ xs) [] = none
strip_prefix (x ∷ xs) (y ∷ ys) = if x == y then strip_prefix xs ys else none

unfoldable pub contains_byte : ℕ → Bytes → Bool
contains_byte b [] = false
contains_byte b (x ∷ xs) = if x == b then true else contains_byte b xs

-- `CString::new`: a text with a NUL is refused.
unfoldable pub c_string : Bytes → Option Bytes
c_string xs = if contains_byte 0 xs then none else some xs

-- The position of the last `b`, in a list that begins at position `i`.
unfoldable pub rfind_from : ℕ → ℕ → Bytes → Option ℕ → Option ℕ
rfind_from b i [] found = found
rfind_from b i (x ∷ xs) found = rfind_from b (i + 1) xs (if x == b then some i else found)

unfoldable pub rfind : ℕ → Bytes → Option ℕ
unfolding rfind_from
rfind b xs = rfind_from b 0 xs none

-- Whether a character of a UTF-8 string begins at the byte.
unfoldable pub starts_char : Bytes → ℕ → Bool
starts_char [] n = false
starts_char (b ∷ bs) zero = ltb b 128 || leb 192 b
starts_char (b ∷ bs) (suc n) = starts_char bs n

-- `str::is_char_boundary`: where a string can be cut.
unfoldable pub is_char_boundary : Bytes → ℕ → Bool
is_char_boundary s n = n == 0 || n == length s || starts_char s n

-- The last place to cut at or below `n`.
unfoldable pub floor_from : Bytes → ℕ → ℕ
floor_from s zero = 0
floor_from s (suc n) =
    let rest = floor_from s n in if is_char_boundary s (suc n) then suc n else rest

-- `str::floor_char_boundary`
unfoldable pub floor_char_boundary : Bytes → ℕ → ℕ
floor_char_boundary s n = floor_from s (min n (length s))

-- `split(sep)`, with the piece read so far: always at least one piece.
unfoldable pub split_on : ℕ → Bytes → Bytes → List Bytes
split_on sep piece [] = piece ∷ []
split_on sep piece (b ∷ bs) =
    let cut = piece ∷ split_on sep [] bs in
    let on = split_on sep (piece ++ b ∷ []) bs in if b == sep then cut else on

-- `trim_end_matches(b)`
unfoldable pub trim_end : ℕ → Bytes → Bytes
trim_end b [] = []
trim_end b (x ∷ xs) = let rest = trim_end b xs in if is_empty rest && x == b then [] else x ∷ rest
