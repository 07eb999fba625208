-- ===== src/Net/Protocol/Lines.antt =====
-- Where a line ends (net/serv.go: scanLineEnd) and which command it names (net/prot.go: whichCmd).
use gostalkd.Prelude.{
  ℕ, suc, ◌+◌, ◌-◌, ◌≡◌, inl, inr, refl, ap, sym, ◌∙◌, Bool, true, false, not, [], ◌∷◌, ◌++◌,
  Option, none, some, Option-cases, Bool-cases, Bytes, cr, lf, index_byte, ltb, leb, ◌==◌, ◌||◌,
  if◌then◌else◌, length, get_elem?, length-append, arith,
}
use gostalkd.Utils.Str.Names.{NoCr, index_byte-append}
use gostalkd.Net.Protocol.{ends_at, scan_line_end}

get_elem?-after :
    (pre rest : Bytes) (c d : ℕ) → get_elem? (pre ++ c ∷ d ∷ rest) (suc (length pre)) ≡ some d
get_elem?-after [] rest c d = refl
get_elem?-after (x ∷ pre) rest c d = get_elem?-after pre rest c d

-- A buffer that begins with a line, none of whose bytes before its CR LF is a CR, and of which all
-- bytes have been read: scanLineEnd gives the length of that line with its CR LF.
pub scan_line_end-append :
    (pre rest : Bytes)
    → NoCr pre
    → scan_line_end (pre ++ cr ∷ lf ∷ rest) (length (pre ++ cr ∷ lf ∷ rest)) ≡ length pre + 2
unfolding scan_line_end
scan_line_end-append pre rest h =
    let len = length-append pre (cr ∷ lf ∷ rest) in
    let short : ltb (length (pre ++ cr ∷ lf ∷ rest)) 2 ≡ false = ground arith in
    let same : (length (pre ++ cr ∷ lf ∷ rest) == length (pre ++ cr ∷ lf ∷ rest)) ≡ true =
      ground arith in
    let inside : leb (length (pre ++ cr ∷ lf ∷ rest) - 1) (length pre) ≡ false = ground arith in
    rw (
      short,
      same,
      index_byte-append pre (lf ∷ rest) h,
      inside,
      ends_at,
      get_elem?-after pre rest cr lf,
    )

index_byte-parts :
    (s : Bytes) (i : ℕ)
    → index_byte cr s ≡ some i
    → (pre : Bytes) × (rest : Bytes) × (s ≡ pre ++ cr ∷ rest) × NoCr pre × (length pre ≡ i)
index_byte-parts [] i e = ground arith
index_byte-parts (c ∷ s) i e = elim (Bool-cases (c == cr)) [
  | inl h ↦ ([], s, ground arith, tt, ground arith)
  | inr h ↦ elim (Option-cases (index_byte cr s)) [
    | inl n ↦ ground arith
    | inr (k, f) ↦
        let (pre, rest, at, free, len) = index_byte-parts s k f in
        (c ∷ pre, rest, ap (◌∷◌ c) at, (h, free), ground arith)
  ]
]

-- What a positive result of scanLineEnd says: the buffer begins with a line of that length, whose
-- last two bytes are CR LF and whose other bytes are no CR, and all its bytes have been read.
pub record Line (s : Bytes) (size n : ℕ) : Type 0 where
  pub before : Bytes
  pub after : Bytes
  pub parts : s ≡ before ++ cr ∷ lf ∷ after
  pub free : NoCr before
  pub len : n ≡ length before + 2
  pub all_read : length s ≡ size

get_elem?-cr :
    (pre rest : Bytes) → get_elem? (pre ++ cr ∷ rest) (suc (length pre)) ≡ get_elem? rest 0
get_elem?-cr [] rest = refl
get_elem?-cr (x ∷ pre) rest = get_elem?-cr pre rest

lf_next :
    (rest : Bytes) (i n : ℕ)
    → (elim (get_elem? rest 0) [ none ↦ 0 | some c ↦ if c == lf then i + 2 else 0 ]) ≡ suc n
    → (after : Bytes) × (rest ≡ lf ∷ after) × (suc n ≡ i + 2)
lf_next [] i n e = ground arith
lf_next (c ∷ rest) i n e = elim (Bool-cases (c == lf)) [
  | inl h ↦ (rest, ground arith, ground arith)
  | inr h ↦ ground arith
]

ends_at-lf :
    (s pre rest : Bytes) (i n : ℕ)
    → s ≡ pre ++ cr ∷ rest
    → length pre ≡ i
    → ends_at s i ≡ suc n
    → (after : Bytes) × (rest ≡ lf ∷ after) × (suc n ≡ length pre + 2)
ends_at-lf s pre rest i n at len e =
    let e' : ends_at (pre ++ cr ∷ rest) i ≡ suc n = rw (sym at) e in
    let (after, next, m) = lf_next rest i n (rw (sym (get_elem?-cr pre rest), len) e') in
    (after, next, rw len m)

-- the tests that a positive result has passed
passed :
    (s : Bytes) (size n : ℕ) (short same : Bool) (o : Option ℕ)
    → (if short || not same
        then 0
        else elim o [ none ↦ 0 | some i ↦ if leb (length s - 1) i then 0 else ends_at s i ])
      ≡ suc n
    → (same ≡ true) × (i : ℕ) × (o ≡ some i) × (ends_at s i ≡ suc n)
passed s size n true same o e = ground arith
passed s size n false false o e = ground arith
passed s size n false true none e = ground arith
passed s size n false true (some i) e = elim (Bool-cases (leb (length s - 1) i)) [
  | inl h ↦ (let d : 0 ≡ suc n = rw h at e in ground arith)
  | inr h ↦ (refl, i, refl, rw h at e)
]

-- scanLineEnd gives a positive number only for a complete line at the start of the buffer.
pub scan_line_end-Line :
    (s : Bytes) (size n : ℕ) → scan_line_end s size ≡ suc n → Line s size (suc n)
unfolding scan_line_end
scan_line_end-Line s size n e =
    let (same, i, f, e') =
      passed s size n (ltb (length s) 2) (length s == size) (index_byte cr s) e in
    let (pre, rest, at, free, len) = index_byte-parts s i f in
    let (after, next, m) = ends_at-lf s pre rest i n at len e' in
    record {
      before = pre;
      after = after;
      parts = at ∙ ap (λ r. pre ++ cr ∷ r) next;
      free = free;
      len = m;
      all_read = ground arith;
    }
