-- ===== src/Prelude/Text.antt =====
-- Byte strings as lists of numbers, and the tests on them.
use Prim.Native.Char.{code}
use Prim.Native.String.{String}
use Prim.Native.Nat.{ℕ, suc}
use mathlib.Core.Path.{◌≡◌, refl, ap}
use mathlib.Core.Logic.{inl, inr}
use mathlib.Core.Bool.{Bool, true, false, ◌&&◌}
use mathlib.Core.List.{List, [], ◌∷◌, ◌++◌}
use mathlib.Core.Option.{Option, none, some}
use gostalkd.Prelude.Tests.{leb, ◌==◌, if◌then◌else◌, Bool-cases}

abbrev pub Bytes : Type 0
Bytes = List ℕ

-- The bytes of an ASCII text.
abbrev pub codes : String → Bytes
codes String.[] = []
codes (String.◌∷◌ c s) = code c ∷ codes s

abbrev pub cr : ℕ
cr = 13

abbrev pub lf : ℕ
lf = 10

abbrev pub space : ℕ
space = 32

abbrev pub crlf : Bytes
crlf = cr ∷ lf ∷ []

abbrev pub is_digit : ℕ → Bool
is_digit c = leb b'0' c && leb c b'9'

-- bytes.Index for one byte, -1 as `none`.
abbrev pub index_byte : ℕ → Bytes → Option ℕ
index_byte b [] = none
index_byte b (c ∷ s) =
    let later : Option ℕ = elim (index_byte b s) [ none ↦ none | some i ↦ some (suc i) ] in
    if c == b then some 0 else later

-- The longest prefix whose bytes pass the test, and what follows it.
abbrev pub span_of : (ℕ → Bool) → Bytes → Bytes × Bytes
span_of p [] = ([], [])
span_of p (c ∷ s) = let (xs, rest) = span_of p s in if p c then (c ∷ xs, rest) else ([], c ∷ s)

abbrev pub All {ℓ κ} : {A : Type ℓ} → (A → Type κ) → List A → Type κ
All P [] = Unit
All P (x ∷ xs) = P x × All P xs

-- No byte of the text stands for the one given first.
abbrev pub Stops : (ℕ → Bool) → Bytes → Type 0
Stops p [] = Unit
Stops p (c ∷ s) = p c ≡ false

module _ (p : ℕ → Bool) where
  abbrev pub Passes : Bytes → Type 0
  Passes = All (λ c. p c ≡ true)

  pub span_of-append : (xs ys : Bytes) → Passes xs → Stops p ys → span_of p (xs ++ ys) ≡ (xs, ys)
  span_of-append [] [] h k = refl
  span_of-append [] (y ∷ ys) h k = rw k
  span_of-append (x ∷ xs) ys h k = rw (h.0, span_of-append xs ys h.1 k)

  pub span_of-parts : (s : Bytes) → (span_of p s).0 ++ (span_of p s).1 ≡ s
  span_of-parts [] = refl
  span_of-parts (c ∷ s) = elim (Bool-cases (p c)) [
    | inl h ↦ rw h (ap (◌∷◌ c) (span_of-parts s))
    | inr h ↦ rw h
  ]

  pub span_of-Passes : (s : Bytes) → Passes (span_of p s).0
  span_of-Passes [] = tt
  span_of-Passes (c ∷ s) = elim (Bool-cases (p c)) [
    | inl h ↦ rw h (h, span_of-Passes s)
    | inr h ↦ rw h tt
  ]

  pub span_of-Stops : (s : Bytes) → Stops p (span_of p s).1
  span_of-Stops [] = tt
  span_of-Stops (c ∷ s) = elim (Bool-cases (p c)) [
    | inl h ↦ rw h (span_of-Stops s)
    | inr h ↦ rw h h
  ]
