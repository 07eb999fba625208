-- ===== src/Net/Serve/Rounds.antt =====
-- The loop of hConn (net/serv.go) ends by itself: each round takes a line off Cmd.
use gostalkd.Prelude.{
  ==_self, ℕ, zero, suc, ◌+◌, ◌≤◌, ◌<◌, ◌≡◌, ◌≢◌, refl, ap, ◌∙◌, inl, inr, ◌&&◌, Bool-cases,
  Option-cases, Option, none, some, Bytes, ltb, ◌==◌, positive, length, length-append, half64,
  arith, update, cr, lf, ◌∷◌,
}
use gostalkd.Machine.{World, Conn}
use gostalkd.Machine.Actions.{M, ◌>>=◌}
use gostalkd.Machine.Frame.{Quiet, Ends, stops, ends}
use gostalkd.Machine.Within.{Within, Ends-mono}
use gostalkd.Core.Tube.{find_loop}
use gostalkd.Structure.Ms
use gostalkd.Net.Conn.{address_eq}
use gostalkd.Net.Protocol.{scan_line_end}
use gostalkd.Net.Protocol.Lines.{scan_line_end-Line}
use gostalkd.Net.Commands.Put.{fill_extra_data}
use gostalkd.Net.Commands.Tubes.{find_or_make, use_tube, watch_tube, ignore_tube}
use gostalkd.Net.Commands.Dispatch.{dispatch_cmd}
use gostalkd.Net.Quiet.Taken.{cmd_of, HasLine, Shortens, Takes, fill_extra_data-Takes}
use gostalkd.Net.Quiet.Commands.{dispatch_cmd-Within}
use gostalkd.Net.Watch.{watch_append, watch_remove}
use gostalkd.Net.Serve.{is_want_command, serve_loop, serve_commands}

module _ (c : ℕ) where
  same : {v w : World} → cmd_of (w.conn c) ≡ cmd_of (v.conn c) → Shortens c v w
  same {v} {w} e = record {
    bounded = let e' = ap (λ (p : Bytes × ℕ × ℕ). length p.0) e in omega (arith, e');
    served = λ h. inl e;
  }

  Quiet-Shortens : (v w : World) → Quiet v w → Shortens c v w
  Quiet-Shortens v w q = same (ap (λ p. (p.0, p.1, p.2)) (q.lines c))

  Shortens-trans : (u v w : World) → Shortens c u v → Shortens c v w → Shortens c u w
  Shortens-trans u v w p q = record {
    bounded = omega (arith, p.bounded, q.bounded);
    served = λ h. elim (p.served h) [
      | inl e ↦
          let size = ap (λ (p : Bytes × ℕ × ℕ). length p.0) e in
          let read = ap (λ (p : Bytes × ℕ × ℕ). p.1) e in
          let len = ap (λ (p : Bytes × ℕ × ℕ). p.2) e in
          let h' : HasLine (v.conn c) = omega (arith, h, read, len) in
          elim (q.served h') [ inl e' ↦ inl (e' ∙ e) | inr l ↦ inr (omega (arith, l, size)) ]
      | inr l ↦ inr (omega (arith, l, q.bounded))
    ];
  }

  Takes-Shortens : (v w : World) → Takes c v w → Shortens c v w
  Takes-Shortens v w t = record { bounded = t.bounded; served = λ h. inr (t.gone h) }

  fill-Shortens : Within (Shortens c) (fill_extra_data c)
  fill-Shortens = record {
    at = λ w. Ends-mono ((fill_extra_data-Takes c).at w) (λ a v. Takes-Shortens w v);
  }

  found :
      (name : Bytes) (w : World) → Ends (λ out. Shortens c w out.1 × Unit {0}) (find_or_make name w)
  unfolding find_or_make
  found name w = ends (same refl, tt)

  used : (t : ℕ) (w : World) → Unit {0} → Ends (λ out. Shortens c w out.1) (use_tube c t w)
  unfolding use_tube
  used t w h = elim (Option-cases (w.conn c).use_tube) [
    | inl e ↦ rw (use_tube, e) stops
    | inr (old, e) ↦ rw (use_tube, e) (ends (same (rw (==_self c))))
  ]

  watched : (t : ℕ) (w : World) → Unit {0} → Ends (λ out. Shortens c w out.1) (watch_tube c t w)
  unfolding watch_tube watch_append
  watched t w h = elim (Bool-cases (Ms.contains (w.conn c).watch.items t)) [
    | inl e ↦ rw (watch_tube, e) (ends (same refl))
    | inr e ↦ rw (watch_tube, e) (ends (same (rw (==_self c))))
  ]

  ignored : (name : Bytes) → Within (Shortens c) (ignore_tube c name)
  unfolding ignore_tube watch_remove
  ignored name = record {
    at = λ w. elim (Option-cases (find_loop w.tubes.at (w.conn c).watch.items name)) [
      | inl e ↦ rw (ignore_tube, ◌>>=◌, e) (ends (same refl))
      | inr (t, e) ↦ elim (Bool-cases (ltb (length (w.conn c).watch.items) 2)) [
        | inl s ↦ rw (ignore_tube, ◌>>=◌, e, s) (ends (same refl))
        | inr s ↦ rw (ignore_tube, ◌>>=◌, e, s) (ends (same (rw (==_self c))))
      ]
    ];
  }

  dispatch_cmd-Shortens : Within (Shortens c) (dispatch_cmd c)
  dispatch_cmd-Shortens =
      dispatch_cmd-Within (Shortens c) Quiet-Shortens Shortens-trans c fill-Shortens
        (λ w t. Unit {0}) found used watched ignored

-- Sequences agree if they agree behind what the first action may leave.
then_same :
    {A B : Type 0} {P : A × World → Type 0} (f g : A → M B) (o : Option (A × World))
    → Ends P o
    → ((a : A) (v : World) → P (a, v) → f a v ≡ g a v)
    → (elim o [ none ↦ none | some (a, v) ↦ f a v ])
      ≡ (elim o [ none ↦ none | some (a, v) ↦ g a v ])
then_same f g o stops k = refl
then_same f g o (ends {a} {w} p) k = k a w p

scanned_bounds :
    (s : Bytes) (size n : ℕ)
    → scan_line_end s size ≡ n
    → n ≢ 0
    → length s < half64
    → (0 < n) × (n ≤ size) × (size < half64)
scanned_bounds s size zero e some_line short = absurd (some_line refl)
scanned_bounds s size (suc n) e some_line short =
    let l = scan_line_end-Line s size n e in
    let whole = ap length l.parts in
    omega (arith, l.len, l.all_read, whole, length-append {0} l.before (cr ∷ lf ∷ l.after))

module _ (c : ℕ) where
  abbrev size : World → ℕ
  size w = length (w.conn c).cmd

  -- the memory after a line has been looked for
  abbrev scanned : World → World
  scanned w =
      let x = w.conn c in
      record w { conn = update w.conn c (record x { cmd_len = scan_line_end x.cmd x.cmd_read }) }

  -- what a round leaves of Cmd
  left :
      (w v u : World)
      → size w < half64
      → scan_line_end (w.conn c).cmd (w.conn c).cmd_read ≢ 0
      → Shortens c (scanned w) v
      → Takes c v u
      → size u < size w
  left w v u short some_line sh tk =
      let x = w.conn c in
      let bounds = scanned_bounds x.cmd x.cmd_read _ refl some_line short in
      let here : (scanned w).conn c ≡ record x { cmd_len = scan_line_end x.cmd x.cmd_read } =
        rw (==_self c) in
      let has : HasLine ((scanned w).conn c) = rw here bounds in
      let size_is = ap (λ (y : Conn). length y.cmd) here in
      elim (sh.served has) [
        | inl e ↦
            let at = ap (λ (p : Bytes × ℕ × ℕ). length p.0) e in
            let read = ap (λ (p : Bytes × ℕ × ℕ). p.1) e in
            let len = ap (λ (p : Bytes × ℕ × ℕ). p.2) e in
            omega (arith, at, size_is, tk.gone (omega (arith, has, read, len)))
        | inr l ↦ omega (arith, l, size_is, tk.bounded)
      ]

  rounds_agree :
      (used_up : M (Unit {0})) (f g : ℕ) (w : World)
      → size w < half64
      → size w < f
      → size w < g
      → serve_loop used_up f c w ≡ serve_commands g c w
  unfolding serve_loop
  rounds_agree used_up zero g w short h k = absurd (omega arith)
  rounds_agree used_up (suc f) zero w short h k = absurd (omega arith)
  rounds_agree used_up (suc f) (suc g) w short h k =
      let x = w.conn c in
      elim (Bool-cases (is_want_command x.state && positive x.cmd_read)) [
        | inr e ↦ rw (serve_loop, e)
        | inl e ↦ elim (Bool-cases (scan_line_end x.cmd x.cmd_read == 0)) [
          | inl z ↦ rw (serve_loop, e, z)
          | inr z ↦
              rw (serve_loop, e, z)
                (then_same _ _ (dispatch_cmd c (scanned w))
                  ((dispatch_cmd-Shortens c).at (scanned w))
                  λ a v sh.
                    then_same _ _ (fill_extra_data c v) ((fill_extra_data-Takes c).at v) λ b u tk.
                      let less = left w v u short (ground arith) sh tk in
                      rounds_agree used_up f g u (omega (arith, less)) (omega (arith, less))
                        (omega (arith, less)))
        ]
      ]

-- The loop of hConn, for a Cmd shorter than 2 ^ 63, ends by itself in the rounds that hConn gives it,
-- one more than Cmd has bytes: with these or more rounds, whatever is done when the rounds are used
-- up, the result is that of hConn's loop.
pub serve_commands-enough :
    (used_up : M (Unit {0})) (c rounds : ℕ) (w : World)
    → length (w.conn c).cmd < half64
    → length (w.conn c).cmd < rounds
    → serve_loop used_up rounds c w ≡ serve_commands (length (w.conn c).cmd + 1) c w
serve_commands-enough used_up c rounds w short h =
    rounds_agree c used_up rounds (length (w.conn c).cmd + 1) w short h (omega arith)
