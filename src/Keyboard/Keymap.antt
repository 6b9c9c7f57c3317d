-- ===== src/Keyboard/Keymap.antt =====
-- kernel/src/drivers/keymap.rs: the tables of the US layout, and `bytes`.
use anss_os.Common.{
  Bool, Bytes, List, Option, [], bit_and, codes, false, get_elem?, get_or, if◌then◌else◌, leb, none,
  not, replicate, set, some, true, ℕ, ◌&&◌, ◌++◌, ◌+◌, ◌-◌, ◌==◌, ◌>>=◌, ◌∷◌,
}

-- A set of `MOD_*` flags.
abbrev pub mod_shift : ℕ
mod_shift = 1

abbrev pub mod_ctrl : ℕ
mod_ctrl = 2

abbrev pub mod_caps : ℕ
mod_caps = 4

abbrev escape : Bytes → Bytes
escape rest = 0x1b ∷ b'[' ∷ rest

-- Home, Up, Page Up, Left, Right, End, Down, Page Down, Delete.
unfoldable pub special_keys : List (ℕ × Bytes)
special_keys =
    (102, escape (codes "H"))
    ∷ (103, escape (codes "A"))
    ∷ (104, escape (codes "5~"))
    ∷ (105, escape (codes "D"))
    ∷ (106, escape (codes "C"))
    ∷ (107, escape (codes "F"))
    ∷ (108, escape (codes "B"))
    ∷ (109, escape (codes "6~"))
    ∷ (111, escape (codes "3~"))
    ∷ []

-- `row`: keys at consecutive codes from `start`.
unfoldable pub row : List ℕ → ℕ → Bytes → List ℕ
row m start [] = m
row m start (k ∷ keys) = row (set m start k) (start + 1) keys

-- `LOWER`: key codes to bytes, 0 where there is none.
unfoldable pub lower : List ℕ
unfolding row
lower =
    let m1 =
      row (replicate 99 0) 1
        (0x1b ∷ codes "1234567890-=" ++ 0x08 ∷ b'\t' ∷ codes "qwertyuiop[]" ++ b'\n' ∷ []) in
    let m2 = row m1 30 (codes "asdfghjkl;'`") in
    let m3 = row m2 43 (b'\\' ∷ codes "zxcvbnm,./") in
    let m4 = set (set m3 55 b'*') 57 b' ' in
    let m5 = row m4 71 (codes "789-456+1230.") in set (set m5 96 b'\n') 98 b'/'

-- `UPPER`: the shifted half, 0 where it falls back to the other.
unfoldable pub upper : List ℕ
unfolding row
upper =
    let m1 = row (replicate 54 0) 2 (codes "!@#$%^&*()_+") in
    let m2 = set (set (set (set m1 26 b'{') 27 b'}') 39 b':') 40 34 in
    let m3 = set (set m2 41 b'~') 43 b'|' in set (set (set m3 51 b'<') 52 b'>') 53 b'?'

unfoldable pub find_special : ℕ → List (ℕ × Bytes) → Option Bytes
find_special code [] = none
find_special code ((c, seq) ∷ rest) = if c == code then some seq else find_special code rest

abbrev pub is_lowercase : ℕ → Bool
is_lowercase c = leb b'a' c && leb c b'z'

abbrev pub has : ℕ → ℕ → Bool
has mods flag = not (bit_and mods flag == 0)

abbrev differ : Bool → Bool → Bool
differ true b = not b
differ false b = b

-- A shifted key's own byte, if the table has one.
abbrev shifted : ℕ → ℕ → ℕ
shifted code c = let u = get_or upper code 0 in if u == 0 then c else u

unfoldable pub modified : ℕ → ℕ → ℕ → ℕ
modified code mods c =
    if has mods mod_ctrl && is_lowercase c
    then c - b'a' + 1
    else if is_lowercase c
    then (if differ (has mods mod_shift) (has mods mod_caps) then c - 32 else c)
    else if has mods mod_shift
    then shifted code c
    else c

abbrev one_byte : ℕ → Option Bytes
one_byte c = if c == 0 then none else some (c ∷ [])

unfoldable pub bytes : ℕ → ℕ → Option Bytes
bytes code mods = elim (find_special code special_keys) [
  | some seq ↦ some seq
  | none ↦ get_elem? lower code >>= λ c. one_byte (modified code mods c)
]
