-- ===== src/Net/Protocol/Names.antt =====
-- The name at the start of a command line (net/prot.go: whichCmd, constant/constant.go: Cmd2OpMap).
use gostalkd.Prelude.{
  ℕ, suc, arith, ◌≡◌, ◌⊎◌, inl, inr, refl, ap, ◌∙◌, ◌≢◌, Bool, true, false, not, ◌&&◌, List, [],
  ◌∷◌, ◌++◌, Option-cases, Bool-cases, Bytes, cr, space, index_byte, All, ◌==◌, take,
}
use gostalkd.Utils.Str.{str_len}
use gostalkd.Net.Protocol.{cmd_to_op, op_of, first_word, which_cmd}
use gostalkd.Machine.{Op, op_unknown}
use gostalkd.Core.Tube.{same_name}
use gostalkd.Core.Tube.Find.{same_name_iff}
use mathlib.Core.List.{Memᴰ}

-- What may follow a name: nothing, a CR or a space.
abbrev pub EndsName : Bytes → Type 0
EndsName [] = Unit
EndsName (c ∷ s) = (c ≡ cr) ⊎ (c ≡ space)

-- A name holds no CR and no space.
abbrev is_name : Bytes → Bool
is_name [] = true
is_name (c ∷ s) = not (c == cr) && not (c == space) && is_name s

abbrev pub IsName : Bytes → Type 0
IsName = All (λ c. ((c == cr) ≡ false) × ((c == space) ≡ false))

abbrev line_of : Bytes → Bytes
unfolding str_len
line_of s = take (str_len s) s

str_len-step : (c : ℕ) (s : Bytes) → (c == cr) ≡ false → str_len (c ∷ s) ≡ suc (str_len s)
unfolding str_len
str_len-step c s h = elim (Option-cases (index_byte cr s)) [
  | inl e ↦ rw (str_len, h, e) refl
  | inr (i, e) ↦ rw (str_len, h, e) refl
]

line_of-cons : (c : ℕ) (s : Bytes) → (c == cr) ≡ false → line_of (c ∷ s) ≡ c ∷ line_of s
unfolding line_of
line_of-cons c s h = ap (λ n. take n (c ∷ s)) (str_len-step c s h)

first_word-name :
    (name rest : Bytes) → IsName name → EndsName rest → first_word (line_of (name ++ rest)) ≡ name
unfolding line_of str_len
first_word-name [] [] h k = refl
first_word-name [] (c ∷ rest) h (inl e) = rw e refl
first_word-name [] (c ∷ rest) h (inr e) = rw (e, first_word, line_of-cons space rest refl) refl
first_word-name (c ∷ name) rest h k =
    rw (first_word, line_of-cons c (name ++ rest) h.0.0, h.0.1, first_word-name name rest h.1 k)
      refl

-- whichCmd looks up the name at the start of the line: what precedes the first CR or space.
pub which_cmd-name :
    (name rest : Bytes)
    → IsName name
    → EndsName rest
    → which_cmd (name ++ rest) ≡ op_of cmd_to_op name
unfolding which_cmd str_len
which_cmd-name name rest h k = ap (op_of cmd_to_op) (first_word-name name rest h k)

IsName-is_name : (s : Bytes) → is_name s ≡ true → IsName s
IsName-is_name [] e = tt
IsName-is_name (c ∷ s) e = ((ground arith, ground arith), IsName-is_name s (ground arith))

abbrev Named : Bytes × Op → Type 0
Named e = (is_name e.0 ≡ true) × (op_of cmd_to_op e.0 ≡ e.1)

Named-all : All Named cmd_to_op
Named-all = (
  (refl, refl),
  (
    (refl, refl),
    (
      (refl, refl),
      (
        (refl, refl),
        (
          (refl, refl),
          (
            (refl, refl),
            (
              (refl, refl),
              (
                (refl, refl),
                (
                  (refl, refl),
                  (
                    (refl, refl),
                    (
                      (refl, refl),
                      (
                        (refl, refl),
                        (
                          (refl, refl),
                          (
                            (refl, refl),
                            (
                              (refl, refl),
                              (
                                (refl, refl),
                                (
                                  (refl, refl),
                                  (
                                    (refl, refl),
                                    (
                                      (refl, refl),
                                      (
                                        (refl, refl),
                                        (
                                          (refl, refl),
                                          (
                                            (refl, refl),
                                            ((refl, refl), ((refl, refl), ((refl, refl), tt))),
                                          ),
                                        ),
                                      ),
                                    ),
                                  ),
                                ),
                              ),
                            ),
                          ),
                        ),
                      ),
                    ),
                  ),
                ),
              ),
            ),
          ),
        ),
      ),
    ),
  ),
)

All-Mem {ℓ κ} : {A : Type ℓ} (P : A → Type κ) (x : A) (xs : List A) → All P xs → Memᴰ x xs → P x
All-Mem P x [] h m = elim m [ ]
All-Mem P x (y ∷ ys) h (Memᴰ.head e) = rw e h.0
All-Mem P x (y ∷ ys) h (Memᴰ.tail m) = All-Mem P x ys h.1 m

-- A line that begins with a name of the map, followed by nothing, a CR or a space, is that
-- name's operation.
pub which_cmd-Mem :
    (e : Bytes × Op) (rest : Bytes)
    → Memᴰ e cmd_to_op
    → EndsName rest
    → which_cmd (e.0 ++ rest) ≡ e.1
which_cmd-Mem e rest m k =
    let (named, found) = All-Mem Named e cmd_to_op Named-all m in
    which_cmd-name e.0 rest (IsName-is_name e.0 named) k ∙ found

missing :
    (ops : List (Bytes × Op)) (name : Bytes)
    → All (λ e. e.0 ≢ name) ops
    → op_of ops name ≡ op_unknown
missing [] name h = refl
missing (e ∷ ops) name h = elim (Bool-cases (same_name e.0 name)) [
  | inl q ↦ elim (h.0 ((same_name_iff e.0 name).0 q)) [ ]
  | inr q ↦ rw (op_of, q) (missing ops name h.1)
]

-- A line whose first word is no name of the map is the unknown operation.
pub which_cmd-unknown :
    (name rest : Bytes)
    → IsName name
    → EndsName rest
    → All (λ e. e.0 ≢ name) cmd_to_op
    → which_cmd (name ++ rest) ≡ op_unknown
which_cmd-unknown name rest h k absent =
    which_cmd-name name rest h k ∙ missing cmd_to_op name absent
