-- ===== src/Crc/Xor.antt =====
-- kernel/src/util/crc32.rs: exclusive or and masks, digit by digit.
use anss_os.Common.{
  ap, arith, bit_and, bit_xor, min, refl, suc, sym, zero, ℕ, ◌%◌, ◌*◌, ◌+◌, ◌/◌, ◌<◌, ◌∙◌, ◌≡◌, ◌≤◌,
}
use Prim.Native.Nat.{digits, differ, bit_xor-bitwise, bit_and-bitwise}

-- A count of digits that is enough gives the same as any other.
digits_enough :
    (z : ℕ → ℕ) (f : ℕ → ℕ → ℕ) (n m a b : ℕ) → a ≤ n → a ≤ m → digits z f n a b ≡ digits z f m a b
digits_enough z f zero zero a b h k = refl
digits_enough z f zero (suc m) zero b h k = refl
digits_enough z f (suc n) zero zero b h k = refl
digits_enough z f (suc n) (suc m) zero b h k = refl
digits_enough z f zero (suc m) (suc a) b h k = absurd (omega arith)
digits_enough z f (suc n) zero (suc a) b h k = absurd (omega arith)
digits_enough z f (suc n) (suc m) (suc a) b h k =
    ap (λ d. d * 2 + f (suc a % 2) (b % 2))
      (digits_enough z f n m (suc a / 2) (b / 2) (omega arith) (omega arith))

xor_digits : (a b : ℕ) → bit_xor a b ≡ digits (λ b. b) differ a a b
xor_digits a b = λ i. bit_xor-bitwise a b i

pub zero_xor : (b : ℕ) → bit_xor 0 b ≡ b
zero_xor b = xor_digits 0 b

differ_lem : (x y : ℕ) → x < 2 → y < 2 → differ x y ≡ (x + y) % 2
differ_lem zero zero h k = refl
differ_lem zero (suc zero) h k = refl
differ_lem (suc zero) zero h k = refl
differ_lem (suc zero) (suc zero) h k = refl
differ_lem zero (suc (suc y)) h k = absurd (omega arith)
differ_lem (suc zero) (suc (suc y)) h k = absurd (omega arith)
differ_lem (suc (suc x)) y h k = absurd (omega arith)

xor_step : (a b : ℕ) → bit_xor a b ≡ bit_xor (a / 2) (b / 2) * 2 + differ (a % 2) (b % 2)
xor_step zero b = zero_xor b ∙ (the_digits b ∙ ap (λ d. d * 2 + b % 2) (sym (zero_xor (b / 2))))
  where
    the_digits : (b : ℕ) → b ≡ b / 2 * 2 + b % 2
    the_digits b = omega arith
xor_step (suc a) b =
    xor_digits (suc a) b
    ∙ ap (λ d. d * 2 + differ (suc a % 2) (b % 2))
        (digits_enough (λ b. b) differ a (suc a / 2) (suc a / 2) (b / 2) (omega arith) (omega arith)
          ∙ sym (xor_digits (suc a / 2) (b / 2)))

-- The lowest digit and the rest of an exclusive or.
pub half_xor : (a b : ℕ) → bit_xor a b / 2 ≡ bit_xor (a / 2) (b / 2)
half_xor a b = omega (arith, xor_step a b, differ_lem (a % 2) (b % 2) (omega arith) (omega arith))

pub low_xor : (a b : ℕ) → bit_xor a b % 2 ≡ (a % 2 + b % 2) % 2
low_xor a b = omega (arith, xor_step a b, differ_lem (a % 2) (b % 2) (omega arith) (omega arith))

-- Numbers with the same lowest digit and the same rest.
pub same_halves : (x y : ℕ) → x / 2 ≡ y / 2 → x % 2 ≡ y % 2 → x ≡ y
same_halves x y h l = omega arith

comm_to : (n a b : ℕ) → a ≤ n → b ≤ n → bit_xor a b ≡ bit_xor b a
comm_to zero zero zero h k = refl
comm_to zero (suc a) b h k = absurd (omega arith)
comm_to zero zero (suc b) h k = absurd (omega arith)
comm_to (suc n) a b h k =
    same_halves (bit_xor a b) (bit_xor b a)
      (half_xor a b ∙ comm_to n (a / 2) (b / 2) (omega arith) (omega arith) ∙ sym (half_xor b a))
      (omega (arith, low_xor a b, low_xor b a))

pub xor_comm : (a b : ℕ) → bit_xor a b ≡ bit_xor b a
xor_comm a b = comm_to (a + b) a b (omega arith) (omega arith)

assoc_to : (n a b c : ℕ) → a ≤ n → b ≤ n → c ≤ n → bit_xor (bit_xor a b) c ≡ bit_xor a (bit_xor b c)
assoc_to zero zero zero zero h k l = refl
assoc_to zero (suc a) b c h k l = absurd (omega arith)
assoc_to zero zero (suc b) c h k l = absurd (omega arith)
assoc_to zero zero zero (suc c) h k l = absurd (omega arith)
assoc_to (suc n) a b c h k l =
    same_halves (bit_xor (bit_xor a b) c) (bit_xor a (bit_xor b c))
      (half_xor (bit_xor a b) c
        ∙ ap (λ x. bit_xor x (c / 2)) (half_xor a b)
        ∙ assoc_to n (a / 2) (b / 2) (c / 2) (omega arith) (omega arith) (omega arith)
        ∙ sym (ap (bit_xor (a / 2)) (half_xor b c))
        ∙ sym (half_xor a (bit_xor b c)))
      (omega (arith, low_xor (bit_xor a b) c, low_xor a b, low_xor a (bit_xor b c), low_xor b c))

pub xor_assoc : (a b c : ℕ) → bit_xor (bit_xor a b) c ≡ bit_xor a (bit_xor b c)
xor_assoc a b c = assoc_to (a + b + c) a b c (omega arith) (omega arith) (omega arith)

self_to : (n a : ℕ) → a ≤ n → bit_xor a a ≡ 0
self_to zero zero h = refl
self_to zero (suc a) h = absurd (omega arith)
self_to (suc n) a h =
    same_halves (bit_xor a a) 0 (half_xor a a ∙ self_to n (a / 2) (omega arith))
      (omega (arith, low_xor a a))

pub xor_self : (a : ℕ) → bit_xor a a ≡ 0
xor_self a = self_to a a (omega arith)

pub xor_zero : (a : ℕ) → bit_xor a 0 ≡ a
xor_zero a = xor_comm a 0 ∙ zero_xor a

-- The mask of the lowest digits.
and_digits : (a b : ℕ) → bit_and a b ≡ digits (λ b. 0) min a a b
and_digits a b = λ i. bit_and-bitwise a b i

zero_and : (b : ℕ) → bit_and 0 b ≡ 0
zero_and b = and_digits 0 b

pub and_step : (a b : ℕ) → bit_and a b ≡ bit_and (a / 2) (b / 2) * 2 + min (a % 2) (b % 2)
and_step zero b =
    zero_and b ∙ sym (ap (λ d. d * 2 + min 0 (b % 2)) (zero_and (b / 2)) ∙ omega arith)
and_step (suc a) b =
    and_digits (suc a) b
    ∙ ap (λ d. d * 2 + min (suc a % 2) (b % 2))
        (digits_enough (λ b. 0) min a (suc a / 2) (suc a / 2) (b / 2) (omega arith) (omega arith)
          ∙ sym (and_digits (suc a / 2) (b / 2)))

and_zero_to : (n a : ℕ) → a ≤ n → bit_and a 0 ≡ 0
and_zero_to zero zero h = refl
and_zero_to zero (suc a) h = absurd (omega arith)
and_zero_to (suc n) a h = omega (arith, and_step a 0, and_zero_to n (a / 2) (omega arith))

pub and_one : (a : ℕ) → bit_and a 1 ≡ a % 2
and_one a = omega (arith, and_step a 1, and_zero_to (a / 2) (a / 2) (omega arith))

and_3 : (a : ℕ) → bit_and a 3 ≡ a % 4
and_3 a = omega (arith, and_step a 3, and_one (a / 2))

and_7 : (a : ℕ) → bit_and a 7 ≡ a % 8
and_7 a = omega (arith, and_step a 7, and_3 (a / 2))

and_15 : (a : ℕ) → bit_and a 15 ≡ a % 16
and_15 a = omega (arith, and_step a 15, and_7 (a / 2))

and_31 : (a : ℕ) → bit_and a 31 ≡ a % 32
and_31 a = omega (arith, and_step a 31, and_15 (a / 2))

and_63 : (a : ℕ) → bit_and a 63 ≡ a % 64
and_63 a = omega (arith, and_step a 63, and_31 (a / 2))

and_127 : (a : ℕ) → bit_and a 127 ≡ a % 128
and_127 a = omega (arith, and_step a 127, and_63 (a / 2))

pub and_255 : (a : ℕ) → bit_and a 255 ≡ a % 256
and_255 a = omega (arith, and_step a 255, and_127 (a / 2))
