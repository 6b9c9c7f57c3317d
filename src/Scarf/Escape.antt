-- ===== src/Scarf/Escape.antt =====
-- userland/rust/scarf/src/lib.rs: the escape sequences of special keys.
use anss_os.Common.{
  Bool, Bytes, List, Option, [], drop, if◌then◌else◌, leb, length, map, none, refl,
  saturating_add_u16, saturating_mul_u16, some, suc, zero, ℕ, ◌&&◌, ◌++◌, ◌-◌, ◌==◌, ◌||◌, ◌∷◌, ◌≡◌,
}
use anss_os.Scarf.Editor.{Special, up, down, left, right, home, end_key, delete}
use anss_os.Keyboard.Keymap.{special_keys, find_special, bytes}

-- What `poll_key` answers.
pub data KeyPoll : Type 0 where
  got : ℕ → KeyPoll
  empty closed : KeyPoll

-- The answers that are still to come; after them there is nothing.
abbrev pub Polls : Type 0
Polls = List KeyPoll

unfoldable pub poll : ℕ → Polls → Polls × Option ℕ
poll n [] = ([], none)
poll zero (p ∷ ps) = (p ∷ ps, none)
poll (suc n) (got b ∷ ps) = (ps, some b)
poll (suc n) (closed ∷ ps) = (ps, none)
poll (suc n) (empty ∷ ps) = poll n ps

unfoldable pub next_byte : Polls → Polls × Option ℕ
next_byte = poll 4

-- The key of `ESC [ num ~`.
unfoldable pub tilde_key : ℕ → Option Special
tilde_key num =
    if num == 1 || num == 7
    then some home
    else if num == 4 || num == 8
    then some end_key
    else if num == 3
    then some delete
    else none

unfoldable pub final_key : ℕ → ℕ → Option Special
final_key num b =
    if b == b'A'
    then some up
    else if b == b'B'
    then some down
    else if b == b'C'
    then some right
    else if b == b'D'
    then some left
    else if b == b'H'
    then some home
    else if b == b'F'
    then some end_key
    else if b == b'~'
    then tilde_key num
    else none

abbrev pub is_digit : ℕ → Bool
is_digit b = leb b'0' b && leb b b'9'

-- The loop; a round takes an answer at least, so as many rounds as answers and one are enough.
unfoldable pub read_number : ℕ → ℕ → Polls → Polls × Option Special
read_number zero num ps = (ps, none)
read_number (suc n) num ps =
    let (qs, byte) = next_byte ps in
    elim byte [
      | none ↦ (qs, none)
      | some b ↦
          (let num1 = saturating_add_u16 (saturating_mul_u16 num 10) (b - b'0') in
            let rest = read_number n num1 qs in if is_digit b then rest else (qs, final_key num b))
    ]

-- `none` for a plain ESC, else the special key or nothing.
unfoldable pub read_escape : Polls → Polls × Option (Option Special)
read_escape ps =
    let (qs, byte) = next_byte ps in
    elim byte [
      | none ↦ (qs, none)
      | some b ↦
          (let (rs, k) = read_number (suc (length qs)) 0 qs in
            if b == b'[' || b == b'O' then (rs, some k) else (qs, none))
    ]

-- What the special keys of the keyboard mean to the editor: it has no use for Page Up and Page Down.
abbrev pub meaning : ℕ → Option Special
meaning code =
    if code == 102
    then some home
    else if code == 103
    then some up
    else if code == 105
    then some left
    else if code == 106
    then some right
    else if code == 107
    then some end_key
    else if code == 108
    then some down
    else if code == 111
    then some delete
    else none

-- Each key of the table sends its sequence, which the editor reads as what the key means.
abbrev pub AllRead : ℕ → Polls → List (ℕ × Bytes) → Type 0
AllRead mods more [] = Unit
AllRead mods more ((code, seq) ∷ keys) =
    ((bytes code mods ≡ some seq)
      × (read_escape (map got (drop 1 seq) ++ more) ≡ (more, some (meaning code))))
    × AllRead mods more keys

-- Whatever modifiers are held, each special key of the keyboard sends its sequence, and the editor
-- reads what follows the ESC as the key that was pressed (or as nothing, for Page Up and Page Down)
-- and leaves what was typed after it.
pub special_keys-AllRead : (mods : ℕ) (more : Polls) → AllRead mods more special_keys
unfolding special_keys find_special bytes read_escape read_number next_byte poll final_key tilde_key
special_keys-AllRead mods more = (
  (refl, refl),
  (
    (refl, refl),
    (
      (refl, refl),
      (
        (refl, refl),
        ((refl, refl), ((refl, refl), ((refl, refl), ((refl, refl), ((refl, refl), tt))))),
      ),
    ),
  ),
)
