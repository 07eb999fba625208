-- ===== src/Core/Wal/Start/Rounds.antt =====
-- The loops of FileRead (core/file.go) end by themselves: each record has bytes.
use gostalkd.Prelude.{
  Bool-cases, ℕ, zero, suc, ◌+◌, ◌<◌, ◌≡◌, refl, Bool, true, false, Option, none, some, Bytes, ltb,
  if◌then◌else◌, inl, inr, length, length-drop, drop, take, arith,
}
use gostalkd.Core.Job.{JobRec, JobState, invalid, ready, reserved, buried, delayed, copied, other}
use gostalkd.Machine.{World}
use gostalkd.Machine.Actions.{M, ◌>>=◌, return, panic, done, on_option}
use gostalkd.Machine.Frame.{Ends, stops, ends}
use gostalkd.Core.Wal.Decode.{read_full}
use gostalkd.Core.Wal.Replay.{fill_read, restore, read_state, read_job_rec, read_rec, read_rec5}
use gostalkd.Core.Wal.Start.{read_loop, read_recs}

-- What is left of a file has fewer bytes than a number.
abbrev Left : ℕ → Option Bytes → Type 0
Left n none = Unit {0}
Left n (some s) = length s < n

-- The action panics, or gives what is said.
record Gives {A : Type 0} (P : A → Type 0) (m : M A) : Type 0 where
  at : (w : World) → Ends (λ out. P out.0) (m w)

module _ {A : Type 0} {P : A → Type 0} where
  bind_result :
      {B : Type 0} {f : B → M A} (o : Option (B × World))
      → ((b : B) → Gives P (f b))
      → Ends (λ out. P out.0) (elim o [ none ↦ none | some (b, v) ↦ f b v ])
  bind_result none k = stops
  bind_result (some (b, v)) k = (k b).at v

  Gives-bind : {B : Type 0} (m : M B) {f : B → M A} → ((b : B) → Gives P (f b)) → Gives P (m >>= f)
  Gives-bind m k = record { at = λ w. bind_result (m w) k }

  Gives-return : (a : A) → P a → Gives P (return a)
  Gives-return a p = record { at = λ w. ends p }

  Gives-panic : Gives P (panic {A = A})
  Gives-panic = record { at = λ w. stops }

  Gives-test : (b : Bool) {m n : M A} → Gives P m → Gives P n → Gives P (if b then m else n)
  Gives-test true p q = p
  Gives-test false p q = q

  Gives-option :
      {B : Type 0} (o : Option B) (m : M A) (f : B → M A)
      → Gives P m
      → ((b : B) → Gives P (f b))
      → Gives P (on_option o m f)
  Gives-option none m f p k = p
  Gives-option (some b) m f p k = k b

module _ (n : ℕ) where
  Gives-none : Gives (Left n) (return none)
  Gives-none = Gives-return none tt

  Gives-some : (s : Bytes) → length s < n → Gives (Left n) (return (some s))
  Gives-some s h = Gives-return (some s) h

  Gives-read_full :
      (k : ℕ) (s : Bytes) (m : M (Option Bytes)) (f : Bytes × Bytes → M (Option Bytes))
      → length s < n
      → Gives (Left n) m
      → ((p : Bytes × Bytes) → length p.1 < n → Gives (Left n) (f p))
      → Gives (Left n) (on_option (read_full k s) m f)
  unfolding read_full
  Gives-read_full k s m f h p q = elim (Bool-cases (ltb (length s) k)) [
    | inl e ↦ rw e p
    | inr e ↦ rw e (q (take k s, drop k s) (omega (arith, h, length-drop k s)))
  ]

ruleset gives =
    (Gives-none, Gives-some, Gives-read_full, Gives-bind, Gives-panic, Gives-test, Gives-option)

module _ (n : ℕ) where
  fill_read-Left :
      (f l j : ℕ) (r : JobRec) (is_full : Bool) (size : ℕ) (s : Bytes)
      → length s < n
      → Gives (Left n) (fill_read f l j r is_full size s)
  unfolding fill_read
  fill_read-Left f l j r is_full size s h = search gives depth 60 fits 4000

  restore-Left :
      (f l : ℕ) (j : Option ℕ) (r : JobRec) (name : Bytes) (is_full : Bool) (size : ℕ) (s : Bytes)
      → length s < n
      → Gives (Left n) (restore f l j r name is_full size s)
  unfolding restore
  restore-Left f l (some j) r name is_full size s h = fill_read-Left f l j r is_full size s h
  restore-Left f l none r name is_full size s h = search (fill_read-Left, gives) depth 60 fits 4000

  read_state-Left :
      (f l : ℕ) (j : Option ℕ) (r : JobRec) (st : JobState) (name : Bytes) (is_full : Bool)
      (size : ℕ) (s : Bytes)
      → length s < n
      → Gives (Left n) (read_state f l j r st name is_full size s)
  unfolding read_state
  read_state-Left f l j r reserved name is_full size s h =
      restore-Left f l j _ name is_full size s h
  read_state-Left f l j r ready name is_full size s h = restore-Left f l j r name is_full size s h
  read_state-Left f l j r buried name is_full size s h = restore-Left f l j r name is_full size s h
  read_state-Left f l j r delayed name is_full size s h = restore-Left f l j r name is_full size s h
  read_state-Left f l j r invalid name is_full size s h = search gives depth 60 fits 4000
  read_state-Left f l j r copied name is_full size s h = search gives depth 60 fits 4000
  read_state-Left f l j r (other k) name is_full size s h = search gives depth 60 fits 4000

  read_job_rec-Left :
      (f l : ℕ) (name : Bytes) (r : JobRec) (size : ℕ) (s : Bytes)
      → length s < n
      → Gives (Left n) (read_job_rec f l name r size s)
  unfolding read_job_rec
  read_job_rec-Left f l name r size s h = search (read_state-Left, gives) depth 60 fits 4000

  -- the eight bytes of a length
  Gives-head :
      (s : Bytes) (m : M (Option Bytes)) (f : Bytes × Bytes → M (Option Bytes))
      → length s ≡ n
      → Gives (Left n) m
      → ((p : Bytes × Bytes) → length p.1 < n → Gives (Left n) (f p))
      → Gives (Left n) (on_option (read_full 8 s) m f)
  unfolding read_full
  Gives-head s m f h p q = elim (Bool-cases (ltb (length s) 8)) [
    | inl e ↦ rw e p
    | inr e ↦ rw e (q (take 8 s, drop 8 s) (ground (arith, length-drop 8 s)))
  ]

  read_rec-Left : (f l : ℕ) (s : Bytes) → length s ≡ n → Gives (Left n) (read_rec f l s)
  unfolding read_rec
  read_rec-Left f l s h = search (Gives-head, read_job_rec-Left, gives) depth 60 fits 4000

  read_rec5-Left : (f l : ℕ) (s : Bytes) → length s ≡ n → Gives (Left n) (read_rec5 f l s)
  unfolding read_rec5
  read_rec5-Left f l s h = search (Gives-head, read_job_rec-Left, gives) depth 60 fits 4000

then_same :
    {P : Option Bytes × World → Type 0} (k m : Option Bytes → M (Unit {0}))
    (o : Option (Option Bytes × World))
    → Ends P o
    → ((a : Option Bytes) (v : World) → P (a, v) → k a v ≡ m a v)
    → (elim o [ none ↦ none | some (a, v) ↦ k a v ])
      ≡ (elim o [ none ↦ none | some (a, v) ↦ m a v ])
then_same k m o stops h = refl
then_same k m o (ends {a} {w} p) h = h a w p

rounds_agree :
    (rec : Bytes → M (Option Bytes))
    → ((s : Bytes) → Gives (Left (length s)) (rec s))
    → (used_up : M (Unit {0})) (f g : ℕ) (s : Bytes) (w : World) → length s < f
    → length s < g
    → read_loop used_up f rec s w ≡ read_recs g rec s w
unfolding read_loop
rounds_agree rec shorter used_up zero g s w h k = absurd (omega arith)
rounds_agree rec shorter used_up (suc f) zero s w h k = absurd (omega arith)
rounds_agree rec shorter used_up (suc f) (suc g) s w h k =
    then_same _ _ (rec s w) ((shorter s).at w)
      λ o v l. by_rest o v l (rounds_agree rec shorter used_up f g)
  where
    by_rest :
        (o : Option Bytes) (v : World)
        → Left (length s) o
        → ((s' : Bytes) (v : World)
            → length s' < f
            → length s' < g
            → read_loop used_up f rec s' v ≡ read_recs g rec s' v)
        → (elim o as (λ _. M (Unit {0})) [ none ↦ done | some s' ↦ read_loop used_up f rec s' ]) v
          ≡ (elim o as (λ _. M (Unit {0})) [ none ↦ done | some s' ↦ read_recs g rec s' ]) v
    by_rest none v l ih = refl
    by_rest (some s') v l ih = ih s' v (omega arith) (omega arith)

-- The loops of FileRead over the records of a log, and of a log of version 5, end by themselves in
-- the rounds that FileRead gives them, one more than there are bytes: with these or more rounds,
-- whatever is done when the rounds are used up, the result is that of FileRead's loop.
pub read_recs-enough :
    (used_up : M (Unit {0})) (f l rounds : ℕ) (s : Bytes) (w : World)
    → length s < rounds
    → (read_loop used_up rounds (read_rec f l) s w ≡ read_recs (length s + 1) (read_rec f l) s w)
      × (read_loop used_up rounds (read_rec5 f l) s w
          ≡ read_recs (length s + 1) (read_rec5 f l) s w)
read_recs-enough used_up f l rounds s w h = (
  rounds_agree (read_rec f l) (λ t. read_rec-Left (length t) f l t refl) used_up rounds
      (length s + 1) s w h (omega arith),
  rounds_agree (read_rec5 f l) (λ t. read_rec5-Left (length t) f l t refl) used_up rounds
      (length s + 1) s w h (omega arith),
)
