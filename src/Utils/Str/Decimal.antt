-- ===== src/Utils/Str/Decimal.antt =====
-- Decimal notation: what `%d` prints, and that ParseInt reads it back.
use gostalkd.Prelude.{
  ℕ, zero, suc, ◌+◌, ◌-◌, ◌*◌, ◌/◌, ◌%◌, ◌<◌, ◌≡◌, refl, true, [], ◌∷◌, ◌++◌, some, arith, ltb,
  if◌then◌else◌, length, length-append, Bytes, is_digit, All, Bool-cases, inl, inr,
}
use gostalkd.Utils.Str.{value_from, int64_limit, parse_int}

-- The digits of `n`; each round divides by ten, so `fuel` above `n` is enough.
decimal_loop : ℕ → ℕ → Bytes
decimal_loop zero n = []
decimal_loop (suc fuel) n =
    let longer = decimal_loop fuel (n / 10) ++ (n % 10 + b'0') ∷ [] in
    if ltb n 10 then (n + b'0') ∷ [] else longer

unfoldable pub decimal : ℕ → Bytes
unfolding decimal_loop
decimal n = decimal_loop (n + 1) n

abbrev pub IsDigits : Bytes → Type 0
IsDigits = All (λ c. is_digit c ≡ true)

IsDigits-append : (xs ys : Bytes) → IsDigits xs → IsDigits ys → IsDigits (xs ++ ys)
IsDigits-append [] ys h k = k
IsDigits-append (x ∷ xs) ys h k = (h.0, IsDigits-append xs ys h.1 k)

value_from-append :
    (acc : ℕ) (xs ys : Bytes) → value_from acc (xs ++ ys) ≡ value_from (value_from acc xs) ys
value_from-append acc [] ys = refl
value_from-append acc (x ∷ xs) ys = value_from-append (acc * 10 + (x - b'0')) xs ys

decimal_loop-IsDigits : (fuel n : ℕ) → IsDigits (decimal_loop fuel n)
unfolding decimal_loop
decimal_loop-IsDigits zero n = tt
decimal_loop-IsDigits (suc fuel) n = elim (Bool-cases (ltb n 10)) [
  | inl h ↦ rw h (ground arith, tt)
  | inr h ↦ rw h (
      IsDigits-append (decimal_loop fuel (n / 10)) _ (decimal_loop-IsDigits fuel (n / 10))
        (ground arith, tt))
]

decimal_loop-value : (fuel n : ℕ) → n < fuel → value_from 0 (decimal_loop fuel n) ≡ n
unfolding decimal_loop
decimal_loop-value zero n h = absurd (omega arith)
decimal_loop-value (suc fuel) n h = elim (Bool-cases (ltb n 10)) [
  | inl t ↦ rw t (omega arith)
  | inr t ↦ rw (t, value_from-append, decimal_loop-value fuel (n / 10) (ground arith)) (omega arith)
]

decimal_loop-length : (fuel n : ℕ) → n < fuel → 0 < length (decimal_loop fuel n)
unfolding decimal_loop
decimal_loop-length zero n h = absurd (omega arith)
decimal_loop-length (suc fuel) n h = elim (Bool-cases (ltb n 10)) [
  | inl t ↦ rw t (omega arith)
  | inr t ↦ rw t (omega (arith, length-append (decimal_loop fuel (n / 10)) ((n % 10 + b'0') ∷ [])))
]

pub decimal-IsDigits : (n : ℕ) → IsDigits (decimal n)
unfolding decimal
decimal-IsDigits n = decimal_loop-IsDigits (n + 1) n

pub decimal-value : (n : ℕ) → value_from 0 (decimal n) ≡ n
unfolding decimal
decimal-value n = decimal_loop-value (n + 1) n (omega arith)

pub decimal-length : (n : ℕ) → 0 < length (decimal n)
unfolding decimal
decimal-length n = decimal_loop-length (n + 1) n (omega arith)

pub parse_int_lem :
    (ds : Bytes)
    → 0 < length ds
    → value_from 0 ds < int64_limit
    → parse_int ds ≡ some (value_from 0 ds)
parse_int_lem [] h k = absurd (omega arith)
parse_int_lem (d ∷ ds) h k = ground arith
