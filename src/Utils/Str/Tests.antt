-- ===== src/Utils/Str/Tests.antt =====
-- Numbers and names read from concrete command lines.
use gostalkd.Prelude.{
  ◌≡◌, ◌<◌, ◌+◌, ◌*◌, ◌++◌, refl, none, codes, crlf, space, arith, length, replicate,
}
use gostalkd.Utils.Str.{parsed, fmt_error, read_int, read_duration, str_tol, int64_limit}
use gostalkd.Utils.Str.Decimal.{decimal}
use gostalkd.Utils.Str.Numbers.{read_int-decimal, read_duration-exact}

read_test : read_int (codes " 12 7") 4 ≡ parsed (12, 7)
unfolding read_int
read_test = refl

letter_test : read_int (codes " x") 0 ≡ fmt_error
unfolding read_int
letter_test = refl

tol_test : str_tol (codes " 5") ≡ none
unfolding str_tol
tol_test = refl

read_int-decimal_example :
    read_int (replicate 2 space ++ (decimal 45 ++ codes " 6")) 3
    ≡ parsed (45, 3 + (2 + length (decimal 45)))
read_int-decimal_example = read_int-decimal 2 45 3 (codes " 6") (omega arith) refl

read_duration-exact_example :
    (read_duration (replicate 1 space ++ (decimal 60 ++ crlf)) 0
      ≡ parsed (60 * 1_000_000_000, 0 + (1 + length (decimal 60))))
    × (60 * 1_000_000_000 < int64_limit)
read_duration-exact_example = read_duration-exact 1 60 0 crlf (omega arith) refl
