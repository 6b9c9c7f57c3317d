-- ===== src/Keyboard/Ascii.antt =====
-- What a program reads from any keyboard: kernel/src/drivers/keymap.rs over all keys and modifiers.
use anss_os.Common.{
  get_elem?-eq-none, Allows, Bool, Bytes, Option, [], all_below, all_below_sound, any_below,
  any_below_sound, ap, arith, bit_xor, bytes_eq, bytes_eq→eq, false, get_elem?, if◌then◌else◌,
  length, ltb, none, refl, some, sym, true, ℕ, ◌&&◌, ◌+◌, ◌-◌, ◌<◌, ◌==◌, ◌||◌, ◌∙◌, ◌∷◌, ◌≡◌, ◌≤◌,
}
use native.Mathlib.Decide.{dec_lt}
use anss_os.Keyboard.Keymap.{
  special_keys, find_special, lower, upper, modified, bytes, is_lowercase, has, mod_ctrl,
}

-- One ASCII byte other than NUL, or an escape sequence.
abbrev pub Sendable : Bytes → Type 0
Sendable [] = ⊥
Sendable (c ∷ []) = (0 < c) × (c < 128)
Sendable (a ∷ b ∷ rest) = (a ≡ 0x1b) × (b ≡ b'[')

sendable : Option Bytes → Bool
sendable none = true
sendable (some []) = false
sendable (some (c ∷ [])) = ltb 0 c && ltb c 128
sendable (some (a ∷ b ∷ rest)) = a == 0x1b && b == b'['

sendable_sound : (o : Option Bytes) → sendable o ≡ true → Allows Sendable o
unfolding sendable
sendable_sound none h = tt
sendable_sound (some []) h = cc
sendable_sound (some (c ∷ [])) h = ground arith
sendable_sound (some (a ∷ b ∷ rest)) h = ground arith

option_eq : Option Bytes → Option Bytes → Bool
option_eq none none = true
option_eq none (some ys) = false
option_eq (some xs) none = false
option_eq (some xs) (some ys) = bytes_eq xs ys

option_eq→eq : (a b : Option Bytes) → option_eq a b ≡ true → a ≡ b
unfolding option_eq
option_eq→eq none none h = refl
option_eq→eq none (some ys) h = cc
option_eq→eq (some xs) none h = cc
option_eq→eq (some xs) (some ys) h = ap some (bytes_eq→eq xs ys h)

sendable_table : all_below 128 (λ code. all_below 8 (λ mods. sendable (bytes code mods))) ≡ true
unfolding sendable all_below bytes special_keys find_special lower upper modified
sendable_table = refl

typed_by : ℕ → ℕ → ℕ → Bool
typed_by b code mods = option_eq (bytes code mods) (some (b ∷ []))

typed_table :
    all_below 95 (λ b. any_below 128 (λ code. any_below 2 (λ mods. typed_by (b + 32) code mods)))
    ≡ true
unfolding typed_by option_eq bytes_eq all_below any_below bytes special_keys find_special lower
    upper modified
typed_table = refl

length-lower : length lower ≡ 99
unfolding lower
length-lower = refl

no_special : (code : ℕ) → 128 ≤ code → find_special code special_keys ≡ none
unfolding find_special special_keys
no_special code h = ground arith

-- A code past the table sends nothing.
past_table : (code mods : ℕ) → 128 ≤ code → bytes code mods ≡ none
unfolding bytes
past_table code mods h =
    ground (arith, no_special code h, get_elem?-eq-none lower code (omega (arith, length-lower)))

-- Whatever key is pressed with whatever modifiers, a program reads nothing, one ASCII byte other than
-- NUL, or an escape sequence that begins with `ESC [`.
pub bytes-Sendable : (code mods : ℕ) → mods < 8 → Allows Sendable (bytes code mods)
bytes-Sendable code mods h = elim (dec_lt code 128) [
  | yes known ↦ sendable_sound (bytes code mods) (
      all_below_sound 8 (λ m. sendable (bytes code m)) mods
        (all_below_sound 128 (λ c. all_below 8 (λ m. sendable (bytes c m))) code sendable_table
          known)
        h)
  | no unknown ↦ rw (past_table code mods (omega arith)) tt
]

-- Every printable ASCII character can be typed, by a key alone or with Shift.
pub every_printable :
    (b : ℕ)
    → 32 ≤ b
    → b < 127
    → (code : ℕ) × (shift : ℕ) × (shift < 2) × (bytes code shift ≡ some (b ∷ []))
every_printable b lo hi =
    let row_found =
      all_below_sound 95
        (λ k. any_below 128 (λ code. any_below 2 (λ mods. typed_by (k + 32) code mods))) (b - 32)
        typed_table (omega arith) in
    let (code, inside, keys) =
      any_below_sound 128 (λ code. any_below 2 (λ mods. typed_by (b - 32 + 32) code mods))
        row_found in
    let (shift, small, found) = any_below_sound 2 (λ mods. typed_by (b - 32 + 32) code mods) keys in
    (code, shift, small, exact code shift found)
  where
    back : b - 32 + 32 ≡ b
    back = omega arith

    exact :
        (code shift : ℕ)
        → typed_by (b - 32 + 32) code shift ≡ true
        → bytes code shift ≡ some (b ∷ [])
    exact code shift found =
        unfold typed_by in option_eq→eq _ _ found ∙ ap (λ k. some (k ∷ [])) back

-- A key that types a letter.
pub is_letter_key : ℕ → Bool
is_letter_key code = elim (get_elem? lower code) [ none ↦ false | some c ↦ is_lowercase c ]

toggles_table :
    all_below 128 (λ code. all_below 8 (λ mods.
      option_eq
        (bytes code (if is_letter_key code then bit_xor mods 5 else bit_xor mods 4))
        (bytes code mods)
      || has mods mod_ctrl))
    ≡ true
unfolding option_eq bytes_eq all_below is_letter_key bytes special_keys find_special lower upper
    modified
toggles_table = refl

-- Without Ctrl, pressing Shift and turning Caps Lock on cancel out on a letter key, and Caps Lock alone
-- changes nothing on any other key.
pub caps_letters_only :
    (code mods : ℕ)
    → mods < 8
    → has mods mod_ctrl ≡ false
    → bytes code (if is_letter_key code then bit_xor mods 5 else bit_xor mods 4) ≡ bytes code mods
caps_letters_only code mods h plain = elim (dec_lt code 128) [
  | yes known ↦ option_eq→eq _ _ (ground (arith, fact known))
  | no unknown ↦ past_table code _ (omega arith) ∙ sym (past_table code mods (omega arith))
]
  where
    toggled : ℕ → ℕ → Bool
    toggled c m =
        option_eq (bytes c (if is_letter_key c then bit_xor m 5 else bit_xor m 4)) (bytes c m)
        || has m mod_ctrl

    fact : code < 128 → toggled code mods ≡ true
    fact known =
        all_below_sound 8 (toggled code) mods
          (all_below_sound 128 (λ c. all_below 8 (toggled c)) code toggles_table known) h
