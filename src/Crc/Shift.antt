-- ===== src/Crc/Shift.antt =====
-- kernel/src/util/crc32.rs: a byte at a time by table, and bit by bit.
use anss_os.Common.{
  Bool-cases, Bytes, [], ap, ap₂, arith, bit_and, bit_xor, get_or, if◌then◌else◌, inl, inr, refl,
  suc, sym, zero, ℕ, ◌%◌, ◌*◌, ◌+◌, ◌-◌, ◌/◌, ◌<◌, ◌==◌, ◌^◌, ◌∙◌, ◌∷◌, ◌≡◌, ◌⊎◌,
}
use anss_os.Crc.{crc_round, rounds, entries, table, fold_bytes, crc32}
use anss_os.Crc.Xor.{
  zero_xor, half_xor, low_xor, xor_comm, xor_assoc, xor_self, xor_zero, and_one, and_255,
  same_halves,
}

abbrev pub polynomial : ℕ
polynomial = 0xedb88320

-- The division, one bit of the register at a time.
unfoldable pub shift_out : ℕ → ℕ
shift_out c = if c % 2 == 1 then bit_xor polynomial (c / 2) else c / 2

unfoldable pub shift_bits : ℕ → ℕ → ℕ
shift_bits zero c = c
shift_bits (suc k) c = shift_bits k (shift_out c)

-- The checksum bit by bit: a byte is added to the register, and its eight bits are shifted out.
unfoldable pub bitwise_fold : ℕ → Bytes → ℕ
bitwise_fold c [] = c
bitwise_fold c (b ∷ bs) = bitwise_fold (shift_bits 8 (bit_xor c b)) bs

round_lem : (c : ℕ) → crc_round c ≡ shift_out c
unfolding crc_round shift_out
round_lem c = ground (arith, and_one c)

rounds_lem : (k c : ℕ) → rounds k c ≡ shift_bits k c
unfolding rounds shift_bits
rounds_lem zero c = refl
rounds_lem (suc k) c = ap (rounds k) (round_lem c) ∙ rounds_lem k (shift_out c)

even_out : (c : ℕ) → c % 2 ≡ 0 → shift_out c ≡ c / 2
unfolding shift_out
even_out c h = ground (arith, h)

odd_out : (c : ℕ) → c % 2 ≡ 1 → shift_out c ≡ bit_xor polynomial (c / 2)
unfolding shift_out
odd_out c h = ground (arith, h)

parity : (c : ℕ) → (c % 2 ≡ 0) ⊎ (c % 2 ≡ 1)
parity c = elim (Bool-cases (c % 2 == 0)) [
  | inl even ↦ inl (ground arith)
  | inr odd ↦ inr (ground arith)
]

-- Exclusive or, with the polynomial on either side or on both.
left_in : (p x y : ℕ) → bit_xor p (bit_xor x y) ≡ bit_xor (bit_xor p x) y
left_in p x y = sym (xor_assoc p x y)

right_in : (p x y : ℕ) → bit_xor p (bit_xor x y) ≡ bit_xor x (bit_xor p y)
right_in p x y = left_in p x y ∙ ap (λ z. bit_xor z y) (xor_comm p x) ∙ xor_assoc x p y

both_in : (p x y : ℕ) → bit_xor x y ≡ bit_xor (bit_xor p x) (bit_xor p y)
both_in p x y = sym (
    ap (λ z. bit_xor z (bit_xor p y)) (xor_comm p x)
    ∙ xor_assoc x p (bit_xor p y)
    ∙ ap (bit_xor x) (left_in p p y ∙ ap (λ z. bit_xor z y) (xor_self p) ∙ zero_xor y))

out_xor : (x y : ℕ) → shift_out (bit_xor x y) ≡ bit_xor (shift_out x) (shift_out y)
out_xor x y = elim (parity x) [
  | inl ex ↦ elim (parity y) [
    | inl ey ↦
        even_out (bit_xor x y) (omega (arith, low_xor x y))
        ∙ half_xor x y
        ∙ ap₂ bit_xor (sym (even_out x ex)) (sym (even_out y ey))
    | inr oy ↦
        odd_out (bit_xor x y) (omega (arith, low_xor x y))
        ∙ ap (bit_xor polynomial) (half_xor x y)
        ∙ right_in polynomial (x / 2) (y / 2)
        ∙ ap₂ bit_xor (sym (even_out x ex)) (sym (odd_out y oy))
  ]
  | inr ox ↦ elim (parity y) [
    | inl ey ↦
        odd_out (bit_xor x y) (omega (arith, low_xor x y))
        ∙ ap (bit_xor polynomial) (half_xor x y)
        ∙ left_in polynomial (x / 2) (y / 2)
        ∙ ap₂ bit_xor (sym (odd_out x ox)) (sym (even_out y ey))
    | inr oy ↦
        even_out (bit_xor x y) (omega (arith, low_xor x y))
        ∙ half_xor x y
        ∙ both_in polynomial (x / 2) (y / 2)
        ∙ ap₂ bit_xor (sym (odd_out x ox)) (sym (odd_out y oy))
  ]
]

bits_xor : (k x y : ℕ) → shift_bits k (bit_xor x y) ≡ bit_xor (shift_bits k x) (shift_bits k y)
unfolding shift_bits
bits_xor zero x y = refl
bits_xor (suc k) x y = ap (shift_bits k) (out_xor x y) ∙ bits_xor k (shift_out x) (shift_out y)

-- `2 ^ k * h`, and what is left of a number after `k` halvings.
abbrev up : ℕ → ℕ → ℕ
up zero h = h
up (suc k) h = up k h * 2

abbrev down : ℕ → ℕ → ℕ
down zero x = x
down (suc k) x = down k (x / 2)

bits_up : (k h : ℕ) → shift_bits k (up k h) ≡ h
unfolding shift_bits
bits_up zero h = refl
bits_up (suc k) h =
    ap (shift_bits k) (even_out (up k h * 2) (omega arith) ∙ omega arith) ∙ bits_up k h

down_xor : (k a b : ℕ) → down k (bit_xor a b) ≡ bit_xor (down k a) (down k b)
down_xor zero a b = refl
down_xor (suc k) a b = ap (down k) (half_xor a b) ∙ down_xor k (a / 2) (b / 2)

up_xor : (k h l : ℕ) → l < up k 1 → bit_xor (up k h) l ≡ up k h + l
up_xor zero h zero lt = xor_zero h ∙ omega arith
up_xor zero h (suc l) lt = absurd (omega arith)
up_xor (suc k) h l lt =
    same_halves (bit_xor (up k h * 2) l) (up k h * 2 + l)
      (half_xor (up k h * 2) l
        ∙ ap (λ x. bit_xor x (l / 2)) (twice (up k h))
        ∙ up_xor k h (l / 2) (omega arith)
        ∙ omega arith)
      (omega (arith, low_xor (up k h * 2) l))
  where
    twice : (x : ℕ) → x * 2 / 2 ≡ x
    twice x = omega arith

get_or-entries : (n i j : ℕ) → j < n → get_or (entries n i) j 0 ≡ rounds 8 (i + j)
unfolding entries
get_or-entries zero i j h = absurd (omega arith)
get_or-entries (suc n) i zero h = ap (rounds 8) (omega arith)
get_or-entries (suc n) i (suc j) h =
    get_or-entries n (i + 1) j (omega arith) ∙ ap (rounds 8) (omega arith)

split_byte : (x : ℕ) → x ≡ bit_xor (up 8 (x / 256)) (x % 256)
split_byte x = omega (arith, up_xor 8 (x / 256) (x % 256) (omega arith))

-- The register after one byte, by the table and by eight single steps.
byte_lem :
    (c b : ℕ)
    → b < 256
    → bit_xor (get_or table (bit_and (bit_xor c b) 0xff) 0) (c / 256) ≡ shift_bits 8 (bit_xor c b)
unfolding table
byte_lem c b h =
    let x = bit_xor c b in
    let rest = shifted c b h in
    ap (λ z. bit_xor z (c / 256))
      (ap (λ i. get_or table i 0) (and_255 x)
        ∙ get_or-entries 256 0 (x % 256) (omega arith)
        ∙ ap (rounds 8) (omega arith)
        ∙ rounds_lem 8 (x % 256))
    ∙ xor_comm (shift_bits 8 (x % 256)) (c / 256)
    ∙ ap₂ bit_xor (sym rest ∙ sym (bits_up 8 (x / 256))) refl
    ∙ sym (bits_xor 8 (up 8 (x / 256)) (x % 256))
    ∙ ap (shift_bits 8) (sym (split_byte x))
  where
    halves : (x : ℕ) → x / 256 ≡ down 8 x
    halves x = omega arith

    shifted : (c b : ℕ) → b < 256 → bit_xor c b / 256 ≡ c / 256
    shifted c b h =
        halves (bit_xor c b)
        ∙ down_xor 8 c b
        ∙ ap (bit_xor (down 8 c)) (omega arith)
        ∙ xor_zero (down 8 c)
        ∙ sym (halves c)

-- Every element is a byte.
abbrev pub AllOctets : Bytes → Type 0
AllOctets [] = Unit
AllOctets (b ∷ bs) = (b < 256) × AllOctets bs

fold_lem : (c : ℕ) (bs : Bytes) → AllOctets bs → fold_bytes c bs ≡ bitwise_fold c bs
unfolding fold_bytes bitwise_fold
fold_lem c [] h = refl
fold_lem c (b ∷ bs) h =
    ap (λ d. fold_bytes d bs) (byte_lem c b h.0) ∙ fold_lem (shift_bits 8 (bit_xor c b)) bs h.1

-- The checksum of bytes by table is the one that adds each byte to the register and shifts its bits
-- out one by one, with the polynomial 0xEDB88320.
pub crc32_lem : (bs : Bytes) → AllOctets bs → crc32 bs ≡ 2 ^ 32 - 1 - bitwise_fold (2 ^ 32 - 1) bs
unfolding crc32
crc32_lem bs h = ap (λ c. 2 ^ 32 - 1 - c) (fold_lem (2 ^ 32 - 1) bs h)
