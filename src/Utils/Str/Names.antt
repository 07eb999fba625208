-- ===== src/Utils/Str/Names.antt =====
-- StrLen, ToStr and StrTol.
use gostalkd.Prelude.{
  ℕ, ◌<◌, ◌≡◌, refl, ap, Bool, false, [], ◌∷◌, ◌++◌, some, ◌==◌, length, take, Bytes, is_digit, cr,
  All, Stops, span_of-append, index_byte,
}
use gostalkd.Utils.Str.{str_len, to_str, str_tol, int64_limit}
use gostalkd.Utils.Str.Decimal.{
  decimal, decimal-IsDigits, decimal-value, decimal-length, parse_int_lem,
}

is_cr : ℕ → Bool
is_cr c = c == cr

-- The text holds no CR.
abbrev pub NoCr : Bytes → Type 0
NoCr = All (λ c. (c == cr) ≡ false)

pub index_byte-append : (s rest : Bytes) → NoCr s → index_byte cr (s ++ cr ∷ rest) ≡ some (length s)
index_byte-append [] rest h = refl
index_byte-append (c ∷ s) rest h = rw (h.0, index_byte-append s rest h.1)

take-append : (s rest : Bytes) → take (length s) (s ++ rest) ≡ s
take-append [] rest = refl
take-append (c ∷ s) rest = ap (◌∷◌ c) (take-append s rest)

-- StrLen and ToStr give the length and the text before the first CR.
pub to_str-append :
    (s rest : Bytes)
    → NoCr s
    → (to_str (s ++ cr ∷ rest) ≡ some s) × (str_len (s ++ cr ∷ rest) ≡ length s)
unfolding to_str str_len
to_str-append s rest h =
    rw (index_byte-append s rest h, to_str, str_len) (ap some (take-append s (cr ∷ rest)), refl)

-- StrTol reads back any number below 2 ^ 63 in decimal notation, if no digit follows.
pub str_tol-decimal :
    (n : ℕ) (rest : Bytes)
    → n < int64_limit
    → Stops is_digit rest
    → str_tol (decimal n ++ rest) ≡ some n
unfolding str_tol
str_tol-decimal n rest lt st = rw (
  span_of-append is_digit (decimal n) rest (decimal-IsDigits n) st,
  parse_int_lem (decimal n) (decimal-length n) (rw (decimal-value n) lt),
  decimal-value n,
)
