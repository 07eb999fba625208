-- ===== src/Prelude/Words.antt =====
-- Go's machine integers as bit patterns: an int64 or uint64 is a number below 2 ^ 64, an int64 with
-- the upper half for the negative numbers; a uint32 is a number below 2 ^ 32.
use Prim.Native.Nat.{ℕ, ◌+◌, ◌-◌, ◌^◌, ◌%◌}
use mathlib.Core.Bool.{Bool}
use gostalkd.Prelude.Tests.{ltb, ◌==◌, if◌then◌else◌}

abbrev pub mod64 : ℕ
mod64 = 2 ^ 64

abbrev pub half64 : ℕ
half64 = 2 ^ 63

abbrev pub mod32 : ℕ
mod32 = 2 ^ 32

abbrev pub add64 : ℕ → ℕ → ℕ
add64 a b = (a + b) % mod64

abbrev pub sub64 : ℕ → ℕ → ℕ
sub64 a b = (a + mod64 - b) % mod64

abbrev pub add32 : ℕ → ℕ → ℕ
add32 a b = (a + b) % mod32

-- The order of int64: the sign bit flipped.
abbrev pub bias : ℕ → ℕ
bias a = (a + half64) % mod64

abbrev pub slt : ℕ → ℕ → Bool
slt a b = ltb (bias a) (bias b)

-- a > 0, as an int64
abbrev pub positive : ℕ → Bool
positive a = slt 0 a

-- A store: what stands at each address.
abbrev pub update {ℓ} : {A : Type ℓ} → (ℕ → A) → ℕ → A → ℕ → A
update f a v x = if x == a then v else f x
