-- ===== src/Common/Panic.antt =====
-- Code that may panic: `none` stands for a panic.
use mathlib.Core.Path.{◌≡◌, refl}
use mathlib.Core.Bool.{Bool, true, false}
use mathlib.Core.Option.{Option, none, some}

infixl 5 ◌>>=◌
abbrev pub ◌>>=◌ {ℓ κ} : {A : Type ℓ} {B : Type κ} → Option A → (A → Option B) → Option B
none >>= f = none
some a >>= f = f a

-- The code runs on with `a`, or panics.
abbrev pub check {ℓ} : {A : Type ℓ} → Bool → A → Option A
check true a = some a
check false a = none

-- The code does not panic, and its result has `P`.
abbrev pub Ensures {ℓ} : {A : Type ℓ} → (A → Type 0) → Option A → Type 0
Ensures P none = ⊥
Ensures P (some a) = P a

-- If the code does not panic, its result has `P`.
abbrev pub Allows {ℓ} : {A : Type ℓ} → (A → Type 0) → Option A → Type 0
Allows P none = Unit
Allows P (some a) = P a

module _ {ℓ} {A : Type ℓ} where
  pub Allows-bind {κ} :
      {B : Type κ} (P : A → Type 0) (Q : B → Type 0) (m : Option A) (f : A → Option B)
      → Allows P m
      → ((a : A) → P a → Allows Q (f a))
      → Allows Q (m >>= f)
  Allows-bind P Q none f e k = tt
  Allows-bind P Q (some a) f e k = k a e

  pub Ensures-bind {κ} :
      {B : Type κ} (P : A → Type 0) (Q : B → Type 0) (m : Option A) (f : A → Option B)
      → Ensures P m
      → ((a : A) → P a → Ensures Q (f a))
      → Ensures Q (m >>= f)
  Ensures-bind P Q none f e k = absurd e
  Ensures-bind P Q (some a) f e k = k a e

  pub Ensures-mono :
      (P Q : A → Type 0) (m : Option A) → Ensures P m → ((a : A) → P a → Q a) → Ensures Q m
  Ensures-mono P Q none e k = e
  Ensures-mono P Q (some a) e k = k a e

  pub Ensures-some : (P : A → Type 0) (m : Option A) → Ensures P m → (a : A) × (m ≡ some a) × P a
  Ensures-some P none e = absurd e
  Ensures-some P (some a) e = (a, refl, e)

  pub Allows-Unit : (m : Option A) → Allows (λ a. Unit {0}) m
  Allows-Unit none = tt
  Allows-Unit (some a) = tt
