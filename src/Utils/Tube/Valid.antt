-- ===== src/Utils/Tube/Valid.antt =====
-- Which names IsValidTube accepts, and what ReadTubeName returns.
use native.Mathlib.Numerals.{add-one}
use gostalkd.Prelude.{
  ℕ, suc, ◌+◌, ◌<◌, ◌≤◌, ◌≡◌, ◌≢◌, ◌↔◌, refl, sym, ap, ◌∙◌, true, false, [], ◌∷◌, ◌++◌, some, arith,
  ◌==◌, if◌then◌else◌, length, take, Bytes, cr, All, Stops, span_of, span_of-parts, span_of-Passes,
  span_of-Stops, index_byte, Bool-cases, Option-cases, inl, inr, get_elem?,
}
use gostalkd.Utils.Str.{parsed, str_len, is_space}
use gostalkd.Utils.Tube.{
  is_name_chart, str_spn, is_valid_tube, starts_well, read_tube_name, max_tube_name_len,
}

abbrev pub IsName : Bytes → Type 0
IsName = All (λ c. is_name_chart c ≡ true)

-- StrSpn is the length of the longest prefix of name characters.
str_spn-span_of :
    (s : Bytes)
    → (length (span_of is_name_chart s).0 ≡ str_spn s)
      × (take (str_spn s) s ≡ (span_of is_name_chart s).0)
unfolding str_spn
str_spn-span_of [] = (refl, refl)
str_spn-span_of (c ∷ s) = elim (Bool-cases (is_name_chart c)) [
  | inl h ↦ rw (h, add-one) (ap suc (str_spn-span_of s).0, ap (◌∷◌ c) (str_spn-span_of s).1)
  | inr h ↦ rw h (refl, refl)
]

str_spn-le : (s : Bytes) → str_spn s ≤ length s
unfolding str_spn
str_spn-le [] = omega arith
str_spn-le (c ∷ s) = ground (arith, str_spn-le s)

str_spn-full : (s : Bytes) → (str_spn s ≡ length s) ↔ IsName s
unfolding str_spn
str_spn-full [] = (λ e. tt, λ h. refl)
str_spn-full (c ∷ s) = elim (Bool-cases (is_name_chart c)) [
  | inl h ↦
      rw h
        (λ e. (refl, (str_spn-full s).0 (omega arith)), λ k. omega (arith, (str_spn-full s).1 k.1))
  | inr h ↦ rw h (λ e. absurd (omega arith), λ k. absurd (ground (arith, k.0)))
]

cr_no_name : is_name_chart cr ≡ false
unfolding is_name_chart
cr_no_name = refl

str_len-cons : (c : ℕ) (s : Bytes) → str_len (c ∷ s) ≡ (if c == cr then 0 else str_len s + 1)
unfolding str_len
str_len-cons c s = elim (Option-cases (index_byte cr s)) [
  | inl q ↦ ground (arith, q)
  | inr (i, q) ↦ ground (arith, q)
]

IsName-str_len : (s : Bytes) → IsName s → str_len s ≡ length s
unfolding str_len
IsName-str_len [] h = refl
IsName-str_len (c ∷ s) h = elim (Bool-cases (c == cr)) [
  | inl q ↦ let same : c ≡ cr = ground arith in cc (sym (h.0), ap is_name_chart same, cr_no_name)
  | inr q ↦ ground (arith, str_len-cons c s, IsName-str_len s h.1)
]

-- Where the name characters end is no later than the first CR.
str_spn-le-str_len : (s : Bytes) → str_spn s ≤ str_len s
unfolding str_spn
str_spn-le-str_len [] = omega arith
str_spn-le-str_len (c ∷ s) = elim (Bool-cases (is_name_chart c)) [
  | inl h ↦
      let other : (c == cr) ≡ false =
        ground (arith, cr_no_name, λ (e : c ≡ cr). ap is_name_chart e) in
      rw (h, str_len-cons c s, other) (omega (arith, str_spn-le-str_len s))
  | inr h ↦ rw h (omega arith)
]

str_len-le : (s : Bytes) → str_len s ≤ length s
unfolding str_len
str_len-le [] = omega arith
str_len-le (c ∷ s) = ground (arith, str_len-cons c s, str_len-le s)

-- A tube may have these names.
pub record IsTubeName (name : Bytes) : Type 0 where
  pub nonempty : 0 < length name
  pub short : length name < max_tube_name_len
  pub charts : IsName name
  pub no_dash : get_elem? name 0 ≢ some b'-'

starts_well_iff :
    (name : Bytes) → 0 < length name → (starts_well name ≡ true) ↔ (get_elem? name 0 ≢ some b'-')
starts_well_iff [] h = absurd (omega arith)
starts_well_iff (c ∷ s) h = (
  λ e q. ground arith,
  λ e. elim (Bool-cases (c == b'-')) [
    | inl q ↦ let same : c ≡ b'-' = ground arith in absurd (e (ap some same))
    | inr q ↦ rw q
  ],
)

-- For a text that holds no CR, IsValidTube accepts exactly the names of 1 to 200 name characters
-- that do not begin with a dash.
pub is_valid_tube_iff :
    (name : Bytes) → str_len name ≡ length name → (is_valid_tube name ≡ true) ↔ IsTubeName name
unfolding is_valid_tube
is_valid_tube_iff name h = (
  λ e.
      let pos : 0 < length name = ground (arith, h) in
      record {
        nonempty = pos;
        short = ground (arith, h);
        charts = (str_spn-full name).0 (ground (arith, h));
        no_dash = (starts_well_iff name pos).0 (ground arith);
      },
  λ v.
      let full = (str_spn-full name).1 v.charts in
      let first = (starts_well_iff name v.nonempty).1 v.no_dash in
      ground (arith, v.nonempty, v.short, full, first, h),
)

-- A name that ReadTubeName returns is the longest run of name characters behind the spaces, and
-- is not empty.
pub record NameFrom (buf : Bytes) (idx : ℕ) (name : Bytes) (idx' : ℕ) : Type 0 where
  pub spaces : Bytes
  pub rest : Bytes
  pub text : buf ≡ spaces ++ (name ++ rest)
  pub blank : All (λ c. is_space c ≡ true) spaces
  pub charts : IsName name
  pub ends : Stops is_name_chart rest
  pub nonempty : 0 < length name
  pub next : idx' ≡ idx + (length spaces + length name)

-- Whatever ReadTubeName accepts is spaces and then the longest run of name characters, which is
-- not empty, and which it returns with the index of the byte behind it.
pub read_tube_name-NameFrom :
    (buf : Bytes) (idx idx' : ℕ) (name : Bytes)
    → read_tube_name buf idx ≡ parsed (name, idx')
    → NameFrom buf idx name idx'
unfolding read_tube_name
read_tube_name-NameFrom buf idx idx' name h =
    let rest = (span_of is_space buf).1 in
    let (count, same) = str_spn-span_of rest in
    let found : name ≡ (span_of is_name_chart rest).0 = ground (arith, same, h) in
    rw found (record {
      spaces = (span_of is_space buf).0;
      rest = (span_of is_name_chart rest).1;
      text = sym (
          ap (λ t. (span_of is_space buf).0 ++ t) (span_of-parts is_name_chart rest)
          ∙ span_of-parts is_space buf);
      blank = span_of-Passes is_space buf;
      charts = span_of-Passes is_name_chart rest;
      ends = span_of-Stops is_name_chart rest;
      nonempty = ground (arith, count, h);
      next = ground (arith, count, h);
    })

-- A name that ReadTubeName returns passes IsValidTube exactly if it has at most 200 bytes and
-- does not begin with a dash.
pub read_tube_name-is_valid_tube :
    (buf : Bytes) (idx idx' : ℕ) (name : Bytes)
    → read_tube_name buf idx ≡ parsed (name, idx')
    → (is_valid_tube name ≡ true)
      ↔ ((length name < max_tube_name_len) × (get_elem? name 0 ≢ some b'-'))
read_tube_name-is_valid_tube buf idx idx' name h =
    let from = read_tube_name-NameFrom buf idx idx' name h in
    let both = is_valid_tube_iff name (IsName-str_len name from.charts) in
    (
      λ e. let v = both.0 e in (v.short, v.no_dash),
      λ (short, no_dash). both.1 (record {
        nonempty = from.nonempty;
        short = short;
        charts = from.charts;
        no_dash = no_dash;
      }),
    )
