-- ===== src/Prelude/Partial.antt =====
-- Code that may panic: `none` is a Go run-time panic, and stops what follows.
use mathlib.Core.Path.{◌≡◌, refl}
use mathlib.Core.Bool.{Bool, true, false}
use mathlib.Core.Option.{Option, none, some}
use gostalkd.Prelude.Tests.{if◌then◌else◌}

infixl 5 ◌>>=◌
abbrev pub ◌>>=◌ {ℓ κ} : {A : Type ℓ} {B : Type κ} → Option A → (A → Option B) → Option B
none >>= f = none
some a >>= f = f a

-- The call does not panic, and what it returns satisfies `P`.
pub data Yields {ℓ κ} {A : Type ℓ} (P : A → Type κ) : Option A → Type (ℓ ⊔ κ) where
  yields : {a : A} → P a → Yields P (some a)

module _ {ℓ κ} {A : Type ℓ} {P : A → Type κ} where
  pub Yields-bind {ℓ' κ'} :
      {B : Type ℓ'} {Q : B → Type κ'} {m : Option A} {f : A → Option B}
      → Yields P m
      → ((a : A) → P a → Yields Q (f a))
      → Yields Q (m >>= f)
  Yields-bind (yields p) k = k _ p

  pub Yields-mono {κ'} :
      {Q : A → Type κ'} {m : Option A} → Yields P m → ((a : A) → P a → Q a) → Yields Q m
  Yields-mono (yields p) k = yields (k _ p)

  pub Yields-test :
      {x y : Option A} (b : Bool)
      → (b ≡ true → Yields P x)
      → (b ≡ false → Yields P y)
      → Yields P (if b then x else y)
  Yields-test true p q = p refl
  Yields-test false p q = q refl

  pub Yields-some : {m : Option A} → Yields P m → (a : A) × (m ≡ some a) × P a
  Yields-some (yields p) = (_, refl, p)
