-- ===== src/Utils/Str.antt =====
-- utils/str.go: reading numbers and names from a command line. A text is a list of bytes.
-- An int64 is its bit pattern, a number below 2 ^ 64.
pub mod Decimal
pub mod Numbers
pub mod Names
mod Tests
use gostalkd.Prelude.{
  ℕ, zero, suc, ◌+◌, ◌-◌, ◌*◌, ◌%◌, ◌^◌, Bool, true, false, List, [], ◌∷◌, Option, none, some, ltb,
  leb, ◌==◌, if◌then◌else◌, length, take, Bytes, cr, space, is_digit, index_byte, span_of,
}

-- How a reader ends: with a value, with an `error`, or with a panic.
pub data Parsed {ℓ} (A : Type ℓ) : Type ℓ where
  parsed : A → Parsed A
  fmt_error panics : Parsed A

-- StrLen
unfoldable pub str_len : Bytes → ℕ
str_len s = elim (index_byte cr s) [ none ↦ length s | some l ↦ l ]

-- ToStr; without a CR the slice bound -1 panics
unfoldable pub to_str : Bytes → Option Bytes
to_str s = elim (index_byte cr s) [ none ↦ none | some l ↦ some (take l s) ]

-- The number that decimal digits stand for.
abbrev pub value_from : ℕ → Bytes → ℕ
value_from acc [] = acc
value_from acc (d ∷ ds) = value_from (acc * 10 + (d - b'0')) ds

-- The largest int64 is 2 ^ 63 - 1.
abbrev pub int64_limit : ℕ
int64_limit = 2 ^ 63

abbrev pub int64_mod : ℕ
int64_mod = 2 ^ 64

-- strconv.ParseInt(s, 10, 64) of a text of digits: the empty text and a number that does not fit
-- are errors
abbrev pub parse_int : Bytes → Option ℕ
parse_int [] = none
parse_int (d ∷ ds) = let n = value_from 0 (d ∷ ds) in if ltb n int64_limit then some n else none

-- StrTol
unfoldable pub str_tol : Bytes → Option ℕ
str_tol s = let (digits, rest) = span_of is_digit s in parse_int digits

abbrev pub is_space : ℕ → Bool
is_space c = c == space

-- the end of ReadInt: the digits that it collected go to ParseInt
digits_read : ℕ → Bytes → ℕ → Parsed (ℕ × ℕ)
digits_read begin digits idx = elim (parse_int digits) [
  | none ↦ fmt_error
  | some n ↦ parsed (n, idx + (begin + length digits))
]

-- the part of ReadInt behind the spaces; `begin` is their number
read_digits : ℕ → Bytes → ℕ → Parsed (ℕ × ℕ)
unfolding digits_read
read_digits begin [] idx = panics
read_digits begin (c ∷ s) idx =
    if is_digit c then digits_read begin (span_of is_digit (c ∷ s)).0 idx else fmt_error

-- ReadInt: the number, and the new `*idx`
unfoldable pub read_int : Bytes → ℕ → Parsed (ℕ × ℕ)
unfolding read_digits
read_int buf idx = let (spaces, rest) = span_of is_space buf in read_digits (length spaces) rest idx

-- ReadDuration: seconds to nanoseconds, in int64 arithmetic
unfoldable pub read_duration : Bytes → ℕ → Parsed (ℕ × ℕ)
unfolding read_int
read_duration buf idx = elim (read_int buf idx) [
  | parsed (t, idx') ↦ parsed (t * 1_000_000_000 % int64_mod, idx')
  | fmt_error ↦ fmt_error
  | panics ↦ panics
]
