-- ===== src/Net/Quiet/Taken.antt =====
-- fillExtraData of net/prot.go takes a line off what is left of Cmd.
use gostalkd.Prelude.{
  ℕ, ◌-◌, ◌≤◌, ◌<◌, ◌≡◌, refl, ◌⊎◌, inl, inr, true, some, Bytes, Bool-cases, Option-cases, ◌==◌,
  add64, sub64, half64, positive, length, drop, length-take, length-drop, arith, ==_self,
}
use gostalkd.Machine.{World, Conn}
use gostalkd.Machine.Frame.{
  Quiet, Quiet-refl, Quiet-same, Quiet-trans, Quiet-conn, Ends, stops, ends,
}
use gostalkd.Machine.Within.{Within, Ends-bind}
use gostalkd.Net.Commands.Put.{slice, min_int, take_body, fill_extra_data}

-- What of a connection holds its commands.
abbrev pub cmd_of : Conn → Bytes × ℕ × ℕ
cmd_of x = (x.cmd, x.cmd_read, x.cmd_len)

-- There is a line in front.
abbrev pub HasLine : Conn → Type 0
HasLine x = (0 < x.cmd_len) × (x.cmd_len ≤ x.cmd_read) × (x.cmd_read < half64)

-- Cmd has not become longer, and a line in front is still there or is gone.
pub record Shortens (c : ℕ) (v w : World) : Type 0 where
  pub bounded : length (w.conn c).cmd ≤ length (v.conn c).cmd
  pub served :
      HasLine (v.conn c)
      → (cmd_of (w.conn c) ≡ cmd_of (v.conn c)) ⊎ (length (w.conn c).cmd < length (v.conn c).cmd)

past_whole : (len read : ℕ) → 0 < len → len ≤ read → read < half64 → 0 < add64 len 0
past_whole len read p q h = omega arith

past_min :
    (len read r : ℕ)
    → 0 < len
    → len ≤ read
    → read < half64
    → positive r ≡ true
    → 0 < add64 len (min_int (sub64 read len) r)
past_min len read r p q h e = ground arith

slice-inv :
    (s t : Bytes) (a b : ℕ) → slice s a b ≡ some t → (a ≤ b) × (b ≤ length s) × (length t ≡ b - a)
slice-inv s t a b e = ground (arith, length-take (b - a) (drop a s), length-drop a s)

module _ (c : ℕ) (w : World) where
  -- the number of bytes that take_body gives is such that the line is left behind
  abbrev pub Past : ℕ → Type 0
  Past n = HasLine (w.conn c) → 0 < add64 (w.conn c).cmd_len n

  abbrev pub extra : ℕ
  extra = sub64 (w.conn c).cmd_read (w.conn c).cmd_len

  pub take_body-Past : Ends (λ out. Past out.0 × Quiet w out.1) (take_body c extra w)
  unfolding take_body
  take_body-Past = elim (Option-cases (w.conn c).in_job) [
    | inl e ↦ elim (Bool-cases (positive (w.conn c).in_job_read)) [
      | inl p ↦
          rw (take_body, e, p) (ends (λ h. past_min _ _ _ h.0 h.1 h.2 p, Quiet-conn w c _ refl))
      | inr p ↦ rw (take_body, e, p) (ends (λ h. past_whole _ _ h.0 h.1 h.2, Quiet-refl w))
    ]
    | inr (j, e) ↦
        let x = w.conn c in
        let n = min_int extra (w.jobs.at j).r.body_size in
        elim (Option-cases (slice x.cmd x.cmd_len (add64 x.cmd_len n))) [
          | inl q ↦ rw (take_body, e, q) stops
          | inr (t, q) ↦
              let cut = slice-inv x.cmd t x.cmd_len (add64 x.cmd_len n) q in
              rw (take_body, e, q)
                (ends (
                  λ h. omega (arith, cut.0, h.0),
                  Quiet-trans (Quiet-same refl refl refl) (Quiet-conn _ c _ refl),
                ))
        ]
  ]

-- Cmd has not become longer, and a line in front is gone.
pub record Takes (c : ℕ) (v w : World) : Type 0 where
  pub bounded : length (w.conn c).cmd ≤ length (v.conn c).cmd
  pub gone : HasLine (v.conn c) → length (w.conn c).cmd < length (v.conn c).cmd

-- fillExtraData does not make Cmd longer, and makes it shorter if there is a line in front.
pub fill_extra_data-Takes : (c : ℕ) → Within (Takes c) (fill_extra_data c)
unfolding fill_extra_data
fill_extra_data-Takes c = record {
  at = λ w.
      let x = w.conn c in
      elim (Bool-cases (x.cmd_len == 0)) [
        | inl e ↦
            rw (fill_extra_data, e)
              (ends record { bounded = omega arith; gone = λ h. ground arith })
        | inr e ↦
            rw (fill_extra_data, e)
              (Ends-bind _ (take_body c (extra c w)) w (take_body-Past c w) λ n v past.
                let at = add64 x.cmd_len n in
                let rest = sub64 (extra c w) n in
                elim (Option-cases (slice x.cmd at (add64 at rest))) [
                  | inl q ↦ rw q stops
                  | inr (t, q) ↦
                      let (up, within, size) = slice-inv x.cmd t at (add64 at rest) q in
                      rw q (
                        ends record {
                          bounded = rw (==_self c) (omega (arith, size, within));
                          gone = λ h. rw (==_self c) (omega (arith, size, within, up, past.0 h));
                        })
                ])
      ];
}
