-- ===== src/Utils/Str/Numbers.antt =====
-- ReadInt and ReadDuration: what they accept, what they return, and when they panic.
use mathlib.Core.List.{append-nil}
use gostalkd.Prelude.{
  ℕ, zero, suc, ◌+◌, ◌*◌, ◌%◌, ◌<◌, ◌≤◌, ◌≡◌, ◌↔◌, refl, sym, ap, ◌∙◌, true, [], ◌∷◌, ◌++◌, some,
  arith, if◌then◌else◌, length, length-replicate, replicate, Bytes, is_digit, space, All, Stops,
  span_of, span_of-append, span_of-parts, span_of-Passes, span_of-Stops, Bool-cases, Option-cases,
  inl, inr,
}
use gostalkd.Utils.Str.{
  parsed, fmt_error, panics, value_from, parse_int, int64_limit, int64_mod, is_space, digits_read,
  read_digits, read_int, read_duration,
}
use gostalkd.Utils.Str.Decimal.{
  IsDigits, decimal, decimal-IsDigits, decimal-value, decimal-length, parse_int_lem,
}

spaces-pass : (k : ℕ) → All (λ c. is_space c ≡ true) (replicate k space)
spaces-pass zero = tt
spaces-pass (suc k) = (refl, spaces-pass k)

digit_no_space : (ds rest : Bytes) → 0 < length ds → IsDigits ds → Stops is_space (ds ++ rest)
digit_no_space [] rest h k = absurd (omega arith)
digit_no_space (d ∷ ds) rest h k = ground arith

digits_read_lem :
    (begin idx : ℕ) (ds : Bytes)
    → 0 < length ds
    → value_from 0 ds < int64_limit
    → digits_read begin ds idx ≡ parsed (value_from 0 ds, idx + (begin + length ds))
unfolding digits_read
digits_read_lem begin idx ds h lt = rw (parse_int_lem ds h lt, digits_read)

read_digits_lem :
    (begin idx : ℕ) (ds rest : Bytes)
    → 0 < length ds
    → IsDigits ds
    → Stops is_digit rest
    → value_from 0 ds < int64_limit
    → read_digits begin (ds ++ rest) idx ≡ parsed (value_from 0 ds, idx + (begin + length ds))
unfolding read_digits
read_digits_lem begin idx [] rest h k st lt = absurd (omega arith)
read_digits_lem begin idx (d ∷ ds) rest h k st lt =
    ap (λ b. if b then digits_read begin (span_of is_digit ((d ∷ ds) ++ rest)).0 idx else fmt_error)
      (k.0)
    ∙ ap (λ t. digits_read begin (t.0) idx) (span_of-append is_digit (d ∷ ds) rest k st)
    ∙ digits_read_lem begin idx (d ∷ ds) h lt

-- ReadInt reads back any number below 2 ^ 63 in decimal notation, behind any spaces, if no digit
-- follows, and moves the index past it.
pub read_int-decimal :
    (k n idx : ℕ) (rest : Bytes)
    → n < int64_limit
    → Stops is_digit rest
    → read_int (replicate k space ++ (decimal n ++ rest)) idx
      ≡ parsed (n, idx + (k + length (decimal n)))
unfolding read_int
read_int-decimal k n idx rest lt st =
    let value = decimal-value n in
    let start = digit_no_space (decimal n) rest (decimal-length n) (decimal-IsDigits n) in
    rw (
      span_of-append is_space (replicate k space) (decimal n ++ rest) (spaces-pass k) start,
      read_digits_lem (length (replicate k space)) idx (decimal n) rest (decimal-length n)
          (decimal-IsDigits n) st (rw value lt),
      value,
      length-replicate k space,
    )

-- What a result of ReadInt says of the text: spaces, then digits with that value.
pub record ReadFrom (buf : Bytes) (idx n idx' : ℕ) : Type 0 where
  pub spaces : Bytes
  pub digits : Bytes
  pub rest : Bytes
  pub text : buf ≡ spaces ++ (digits ++ rest)
  pub blank : All (λ c. is_space c ≡ true) spaces
  pub numeric : IsDigits digits
  pub ends : Stops is_digit rest
  pub value : value_from 0 digits ≡ n
  pub nonempty : 0 < length digits
  pub fits : n < int64_limit
  pub next : idx' ≡ idx + (length spaces + length digits)

parse_int-some :
    (ds : Bytes) (n : ℕ)
    → parse_int ds ≡ some n
    → (value_from 0 ds ≡ n) × (0 < length ds) × (n < int64_limit)
parse_int-some [] n h = cc
parse_int-some (d ∷ ds) n h = ground arith

read_digits-ReadFrom :
    (spaces : Bytes) (idx n idx' : ℕ) (s : Bytes)
    → All (λ c. is_space c ≡ true) spaces
    → read_digits (length spaces) s idx ≡ parsed (n, idx')
    → ReadFrom (spaces ++ s) idx n idx'
unfolding read_digits
read_digits-ReadFrom spaces idx n idx' [] b h = cc
read_digits-ReadFrom spaces idx n idx' (c ∷ s) b h = elim (Bool-cases (is_digit c)) [
  | inr q ↦ cc (rw q at h)
  | inl q ↦ elim (Option-cases (parse_int (span_of is_digit (c ∷ s)).0)) [
    | inl o ↦ absurd (ground (arith, q, o, h))
    | inr (m, o) ↦
        let same : m ≡ n = ground (arith, q, o, h) in
        let facts = parse_int-some (span_of is_digit (c ∷ s)).0 n (o ∙ ap some same) in
        record {
          spaces = spaces;
          digits = (span_of is_digit (c ∷ s)).0;
          rest = (span_of is_digit (c ∷ s)).1;
          text = ap (λ t. spaces ++ t) (sym (span_of-parts is_digit (c ∷ s)));
          blank = b;
          numeric = span_of-Passes is_digit (c ∷ s);
          ends = span_of-Stops is_digit (c ∷ s);
          value = facts.0;
          nonempty = facts.1;
          fits = facts.2;
          next = ground (arith, q, o, h);
        }
  ]
]

-- Whatever ReadInt accepts is spaces and then a decimal number below 2 ^ 63, which it returns
-- with the index of the byte behind it.
pub read_int-ReadFrom :
    (buf : Bytes) (idx n idx' : ℕ) → read_int buf idx ≡ parsed (n, idx') → ReadFrom buf idx n idx'
unfolding read_int
read_int-ReadFrom buf idx n idx' h = rw (span_of-parts is_space buf) at (
    read_digits-ReadFrom (span_of is_space buf).0 idx n idx' (span_of is_space buf).1
      (span_of-Passes is_space buf) h)

read_digits-panics : (begin idx : ℕ) (s : Bytes) → (read_digits begin s idx ≡ panics) ↔ (s ≡ [])
unfolding read_digits
read_digits-panics begin idx [] = (λ e. refl, λ e. refl)
read_digits-panics begin idx (c ∷ s) = (λ e. absurd (ground arith), λ e. cc)

-- ReadInt panics exactly on a text of spaces alone, the empty one too: it reads the byte behind
-- the spaces unchecked.
pub read_int-panics :
    (buf : Bytes) (idx : ℕ) → (read_int buf idx ≡ panics) ↔ All (λ c. is_space c ≡ true) buf
unfolding read_int
read_int-panics buf idx = (
  λ e.
      let out =
        (read_digits-panics (length (span_of is_space buf).0) idx (span_of is_space buf).1).0 e in
      let whole : (span_of is_space buf).0 ≡ buf =
        sym (append-nil _) ∙ rw out at (span_of-parts is_space buf) in
      rw whole at (span_of-Passes is_space buf),
  λ h. rw (all_blank buf h),
)
  where
    all_blank : (s : Bytes) → All (λ c. is_space c ≡ true) s → span_of is_space s ≡ (s, [])
    all_blank [] h = refl
    all_blank (c ∷ s) h = rw (h.0, all_blank s h.1)

-- ReadDuration reads a number of seconds below 2 ^ 63 and returns its nanoseconds modulo 2 ^ 64.
read_duration-decimal :
    (k n idx : ℕ) (rest : Bytes)
    → n < int64_limit
    → Stops is_digit rest
    → read_duration (replicate k space ++ (decimal n ++ rest)) idx
      ≡ parsed (n * 1_000_000_000 % int64_mod, idx + (k + length (decimal n)))
unfolding read_duration
read_duration-decimal k n idx rest lt st = rw (read_int-decimal k n idx rest lt st, read_duration)

-- Up to 9223372036 seconds ReadDuration is exact and not negative.
pub read_duration-exact :
    (k n idx : ℕ) (rest : Bytes)
    → n ≤ 9_223_372_036
    → Stops is_digit rest
    → (read_duration (replicate k space ++ (decimal n ++ rest)) idx
        ≡ parsed (n * 1_000_000_000, idx + (k + length (decimal n))))
      × (n * 1_000_000_000 < int64_limit)
read_duration-exact k n idx rest h st =
    let small : n * 1_000_000_000 % int64_mod ≡ n * 1_000_000_000 = omega arith in
    (rw (read_duration-decimal k n idx rest (omega arith) st, small), omega arith)

-- From 9223372037 to 18446744073 seconds ReadDuration succeeds with a negative int64.
pub read_duration-negative :
    (k n idx : ℕ) (rest : Bytes)
    → 9_223_372_037 ≤ n
    → n ≤ 18_446_744_073
    → Stops is_digit rest
    → (d : ℕ) × (read_duration (replicate k space ++ (decimal n ++ rest)) idx
        ≡ parsed (d, idx + (k + length (decimal n))))
      × (int64_limit ≤ d)
read_duration-negative k n idx rest lo hi st = (
  n * 1_000_000_000 % int64_mod,
  read_duration-decimal k n idx rest (omega arith) st,
  omega arith,
)
