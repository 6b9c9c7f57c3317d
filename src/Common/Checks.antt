-- ===== src/Common/Checks.antt =====
-- Statements about all numbers below a bound, or about one of them, by evaluation.
use Prim.Native.Nat.{ℕ, zero, suc, ◌<◌}
use mathlib.Core.Path.{◌≡◌, refl}
use mathlib.Core.Logic.{inl, inr}
use mathlib.Core.Bool.{Bool, true, false, not}
use native.Mathlib.Omega.{arith}
use anss_os.Common.Tests.{Bool-cases}

unfoldable pub all_below : ℕ → (ℕ → Bool) → Bool
all_below zero f = true
all_below (suc n) f = elim (all_below n f) [ true ↦ f n | false ↦ false ]

pub all_below_sound :
    (bound : ℕ) (f : ℕ → Bool) (k : ℕ) → all_below bound f ≡ true → k < bound → f k ≡ true
unfolding all_below
all_below_sound zero f k all below = absurd (omega arith)
all_below_sound (suc n) f k all below = elim (Bool-cases (all_below n f)) [
  | inl lower ↦ ground (arith, all_below_sound n f k lower)
  | inr fails ↦ absurd (ground (arith, fails))
]

unfoldable pub any_below : ℕ → (ℕ → Bool) → Bool
any_below zero p = false
any_below (suc n) p = elim (p n) [ true ↦ true | false ↦ any_below n p ]

pub any_below_sound :
    (n : ℕ) (p : ℕ → Bool) → any_below n p ≡ true → (x : ℕ) × (x < n) × (p x ≡ true)
unfolding any_below
any_below_sound zero p h = cc
any_below_sound (suc n) p h = elim (Bool-cases (p n)) [
  | inl here ↦ (n, omega arith, here)
  | inr other ↦
      let rest : any_below n p ≡ true = ground arith in
      let (x, lt, px) = any_below_sound n p rest in (x, omega arith, px)
]

-- Equality of tests.
abbrev pub bool_eq : Bool → Bool → Bool
bool_eq true b = b
bool_eq false b = not b

pub bool_eq→eq : (a b : Bool) → bool_eq a b ≡ true → a ≡ b
bool_eq→eq true true h = refl
bool_eq→eq true false h = cc
bool_eq→eq false true h = cc
bool_eq→eq false false h = refl
