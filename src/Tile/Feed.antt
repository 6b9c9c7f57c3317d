-- ===== src/Tile/Feed.antt =====
-- userland/rust/tile/src/vt.rs: the bytes of a pane's programs, one at a time.
use anss_os.Common.{
  List, Option, [], bit_and, bit_or, check, false, get_or, if◌then◌else◌, leb, length, ltb,
  replicate, saturating_add_u16, saturating_mul_u16, set, some, true, ℕ, ◌%◌, ◌&&◌, ◌*◌, ◌+◌, ◌-◌,
  ◌==◌, ◌>>=◌, ◌^◌, ◌||◌, ◌∷◌,
}
use anss_os.Tile.Screen.{Vt, State, normal, esc, blank, max_params, set_cell, next_row, put}
use anss_os.Tile.Screen
use anss_os.Tile.Csi.{csi, private_csi}

-- `char::from_u32(bits).unwrap_or('?')`: a surrogate or a number past the last code point is none.
unfoldable pub char_or_mark : ℕ → ℕ
char_or_mark bits =
    if ltb bits 0xd800 || (leb 0xe000 bits && ltb bits 0x11_0000) then bits else b'?'

-- A byte from 0x80 on that begins a character.
unfoldable pub utf8_start : Vt → ℕ → Option Vt
utf8_start v b =
    if leb 0xc0 b && leb b 0xdf
    then some (record v { utf8_bits = bit_and b 0x1f; utf8_left = 1 })
    else if leb 0xe0 b && leb b 0xef
    then some (record v { utf8_bits = bit_and b 0x0f; utf8_left = 2 })
    else if leb 0xf0 b && leb b 0xf7
    then some (record v { utf8_bits = bit_and b 0x07; utf8_left = 3 })
    else put v b'?' >>= λ v1. some (record v1 { utf8_bits = 0; utf8_left = 0 })

-- A continuation byte: six more bits, and the character once it is complete.
unfoldable pub utf8_continue : Vt → ℕ → Option Vt
utf8_continue v b =
    let bits = bit_or (v.utf8_bits * 2 ^ 6 % 2 ^ 32) (bit_and b 0x3f) in
    let v1 : Vt = record v { utf8_bits = bits; utf8_left = v.utf8_left - 1 } in
    if v1.utf8_left == 0 then put v1 (char_or_mark bits) else some v1

unfoldable pub byte_esc : Vt → ℕ → Vt
byte_esc v b =
    if b == b'['
    then record v {
      state = Screen.State.csi;
      params = replicate max_params 0;
      nparams = 0;
      private = false;
    }
    else record v { state = normal }

-- The parameter being typed, counted from 1.
abbrev pub current_param : Vt → ℕ
current_param v = if v.nparams == 0 then 1 else v.nparams

-- A digit of parameter number `nparams - 1`; `none` where that is out of bounds.
unfoldable pub digit : Vt → ℕ → Option Vt
digit v b =
    let n = current_param v in
    let p = get_or v.params (n - 1) 0 in
    check (ltb (n - 1) (length v.params)) (record v {
      nparams = n;
      params = set v.params (n - 1) (saturating_add_u16 (saturating_mul_u16 p 10) (b - b'0'));
    })

unfoldable pub separator : Vt → Vt
separator v =
    let n = current_param v in record v { nparams = (if ltb n max_params then n + 1 else n) }

unfoldable pub byte_csi : Vt → ℕ → Option Vt
byte_csi v b =
    if b == b'?' && v.nparams == 0
    then some (record v { private = true })
    else if leb b'0' b && leb b b'9'
    then digit v b
    else if b == b';'
    then some (separator v)
    else (if v.private then some (private_csi v b) else csi v b) >>= λ v1.
        some (record v1 { state = normal })

unfoldable pub byte_normal : Vt → ℕ → Option Vt
byte_normal v b =
    if b == 0x1b
    then some (record v { state = esc })
    else if b == b'\n'
    then next_row (record v { cx = 0 })
    else if b == b'\r'
    then some (record v { cx = 0 })
    else if b == 0x08
    then (if ltb 0 v.cx
        then (let v1 : Vt = record v { cx = v.cx - 1 } in
            set_cell v1 v1.cx v1.cy (record { ch = b' '; attr = v1.attr }))
        else some v)
    else if leb b' ' b && leb b b'~'
    then put v b
    else some v

unfoldable pub dispatch : State → Vt → ℕ → Option Vt
dispatch esc v b = some (byte_esc v b)
dispatch State.csi v b = byte_csi v b
dispatch normal v b = byte_normal v b

-- A byte that does not go on with a character in progress.
unfoldable pub byte_fresh : Vt → ℕ → Option Vt
byte_fresh v b = if leb 0x80 b then utf8_start v b else dispatch v.state v b

unfoldable pub byte : Vt → ℕ → Option Vt
byte v b =
    if ltb 0 v.utf8_left
    then (if bit_and b 0xc0 == 0x80
        then utf8_continue v b
        else (put (record v { utf8_left = 0 }) b'?' >>= λ v1. byte_fresh v1 b))
    else byte_fresh v b

unfoldable pub feed : Vt → List ℕ → Option Vt
feed v [] = some v
feed v (b ∷ bs) = byte v b >>= λ v'. feed v' bs
