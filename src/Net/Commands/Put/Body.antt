-- ===== src/Net/Commands/Put/Body.antt =====
-- What net/prot.go's fillExtraData does with the bytes that stand behind a command.
use gostalkd.Prelude.{
  ==_self, ℕ, zero, suc, ◌+◌, ◌-◌, ◌≤◌, ◌<◌, ◌≡◌, refl, ap, ◌∙◌, false, inl, inr, List, [], ◌∷◌,
  ◌++◌, ◌⊎◌, some, Yields, yields, Bool-cases, Bytes, ltb, ◌==◌, add64, sub64, slt, half64, length,
  length-take, length-drop, take, drop, take-append-drop, arith,
}
use gostalkd.Machine.{World}
use gostalkd.Net.Commands.Put.{slice, min_int, take_body, fill_extra_data}

module _ {ℓ} {A : Type ℓ} where
  pub drop-drop : (a n : ℕ) (s : List A) → drop (a + n) s ≡ drop n (drop a s)
  drop-drop zero n s = let e : 0 + n ≡ n = omega arith in rw e
  drop-drop (suc a) zero [] = let e : suc a + 0 ≡ suc a = omega arith in rw e
  drop-drop (suc a) (suc n) [] = let e : suc a + suc n ≡ suc (a + suc n) = omega arith in rw e
  drop-drop (suc a) n (x ∷ s) =
      let e : suc a + n ≡ suc (a + n) = omega arith in rw e (drop-drop a n s)

  take-all : (n : ℕ) (s : List A) → length s ≤ n → take n s ≡ s
  take-all zero [] h = refl
  take-all zero (x ∷ s) h = absurd (omega arith)
  take-all (suc n) [] h = refl
  take-all (suc n) (x ∷ s) h = ap (◌∷◌ x) (take-all n s (omega arith))

slice-within :
    (s : Bytes) (a b : ℕ) → a ≤ b → b ≤ length s → slice s a b ≡ some (take (b - a) (drop a s))
slice-within s a b h k =
    let up : ltb b a ≡ false = ground arith in
    let inside : ltb (length s) b ≡ false = ground arith in rw (up, inside)

-- the bytes behind the command, of which the first `n` go to the job
module _ (s : Bytes) (len n : ℕ) (h : len + n ≤ length s) (short : length s < half64) where
  pub body_slice : slice s len (add64 len n) ≡ some (take n (drop len s))
  body_slice =
      let at : add64 len n ≡ len + n = omega arith in
      let size : len + n - len ≡ n = omega arith in
      rw at
        (slice-within s len (len + n) (omega arith) h ∙ ap (λ k. some (take k (drop len s))) size)

  pub rest_slice :
      (extra : ℕ)
      → extra ≡ length s - len
      → slice s (add64 len n) (add64 (add64 len n) (sub64 extra n)) ≡ some (drop n (drop len s))
  rest_slice extra e =
      let at : add64 len n ≡ len + n = omega arith in
      let end : add64 (add64 len n) (sub64 extra n) ≡ length s = omega arith in
      let dropped = length-drop (len + n) s in
      rw (end, at)
        (slice-within s (len + n) (length s) h (omega arith)
          ∙ ap some (take-all (length s - (len + n)) (drop (len + n) s) (omega (arith, dropped)))
          ∙ ap some (drop-drop len n s))

min_int-le :
    (a b : ℕ)
    → a < half64
    → b < half64
    → (min_int a b ≤ a) × (min_int a b ≤ b) × ((min_int a b ≡ a) ⊎ (min_int a b ≡ b))
min_int-le a b h k = elim (Bool-cases (slt a b)) [
  | inl e ↦ rw e (omega arith, ground arith, inl refl)
  | inr e ↦ rw e (ground arith, omega arith, inr refl)
]

-- What fillExtraData leaves behind when a job's body is read.
pub record Filled (w : World) (c j : ℕ) (after : World) : Type 0 where
  pub bytes : (after.jobs.at j).body ++ (after.conn c).cmd ≡ drop (w.conn c).cmd_len (w.conn c).cmd
  pub counted : (after.conn c).in_job_read ≡ length (after.jobs.at j).body
  pub in_size : length (after.jobs.at j).body ≤ (w.jobs.at j).r.body_size
  pub full : (length (after.jobs.at j).body ≡ (w.jobs.at j).r.body_size) ⊎ ((after.conn c).cmd ≡ [])
  pub read : (after.conn c).cmd_read ≡ length (after.conn c).cmd
  pub served : (after.conn c).cmd_len ≡ 0

nil_of_drop : (n : ℕ) (s : Bytes) → length s ≤ n → drop n s ≡ []
nil_of_drop zero [] h = refl
nil_of_drop zero (x ∷ s) h = absurd (omega arith)
nil_of_drop (suc n) [] h = refl
nil_of_drop (suc n) (x ∷ s) h = nil_of_drop n s (omega arith)

-- For a connection that has read the whole of Cmd, a command in front of it, and a job that is
-- being read, fillExtraData does not panic. The job's body and the Cmd that is left are together
-- the bytes behind the command, in their order; the body has at most its size, and is shorter
-- only if nothing is left; InJobRead and CmdRead count the two, and CmdLen is 0.
pub fill_extra_data-Filled :
    (w : World) (c j : ℕ)
    → (w.conn c).in_job ≡ some j
    → 0 < (w.conn c).cmd_len
    → (w.conn c).cmd_len ≤ length (w.conn c).cmd
    → (w.conn c).cmd_read ≡ length (w.conn c).cmd
    → length (w.conn c).cmd < half64
    → (w.jobs.at j).r.body_size < half64
    → Yields (λ out. Filled w c j out.1) (fill_extra_data c w)
unfolding fill_extra_data take_body
fill_extra_data-Filled w c j job some_cmd inside all_read short fits =
    let s = (w.conn c).cmd in
    let len = (w.conn c).cmd_len in
    let extra = sub64 (w.conn c).cmd_read len in
    let size = (w.jobs.at j).r.body_size in
    let n = min_int extra size in
    let extra_is : extra ≡ length s - len = omega arith in
    let (below, in_size, which) = min_int-le extra size (omega arith) fits in
    let h : len + n ≤ length s = omega arith in
    let busy : (len == 0) ≡ false = ground arith in
    rw
      (
        fill_extra_data,
        busy,
        take_body,
        job,
        body_slice s len n h short,
        rest_slice s len n h short extra extra_is,
      )
      (yields record {
        bytes = rw (==_self j, ==_self c) (take-append-drop n (drop len s));
        counted =
            rw (==_self j, ==_self c)
              (omega (arith, length-take n (drop len s), length-drop len s));
        in_size = rw (==_self j) (omega (arith, length-take n (drop len s)));
        full =
            rw (==_self j, ==_self c)
              (elim which [
                | inl e ↦ inr (nil_of_drop n (drop len s) (omega (arith, length-drop len s)))
                | inr e ↦ inl (omega (arith, length-take n (drop len s), length-drop len s))
              ]);
        read = rw (==_self c) (omega (arith, length-drop n (drop len s), length-drop len s));
        served = rw (==_self c);
      })
