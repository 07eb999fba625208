-- ===== src/Net/Tallied/Commands.antt =====
-- All the commands of net/prot.go, and the loop of hConn (net/serv.go), keep the tally.
use gostalkd.Prelude.{
  ℕ, zero, suc, ◌<◌, ◌≡◌, refl, sym, ◌∙◌, ◌&&◌, Bool-cases, Option-cases, inl, inr, ◌==◌, positive,
  add64, sub64, update,
}
use gostalkd.Machine.{World, Conn}
use gostalkd.Machine.Frame.{Quiet, Ends, stops, ends, update-keeps}
use gostalkd.Machine.Within.{Within, Ends-mono, Ends-bind}
use gostalkd.Net.Protocol.{scan_line_end}
use gostalkd.Net.Commands.Put.{take_body, fill_extra_data, slice}
use gostalkd.Net.Commands.Dispatch.{dispatch_cmd}
use gostalkd.Net.Quiet.Commands.{dispatch_cmd-Within}
use gostalkd.Net.Quiet.Taken.{extra, take_body-Past}
use gostalkd.Net.Serve.{is_want_command, serve_loop, serve_commands}
use gostalkd.Net.Tallied.{IsTallied, Quiet-IsTallied, IsUsed-same, IsWatched-same, Below-same}
use gostalkd.Net.Tallied.Made.{Keeps, IsKnown, find_or_make-Keeps}
use gostalkd.Net.Tallied.Tubes.{use_tube-Keeps, watch_tube-Keeps, ignore_tube-Keeps}

-- A connection's place changes nothing of the tally, if it uses and watches what it did.
conn-IsTallied :
    (w : World) (c : ℕ) (x : Conn)
    → x.use_tube ≡ (w.conn c).use_tube
    → x.watch.items ≡ (w.conn c).watch.items
    → IsTallied w
    → IsTallied (record w { conn = update w.conn c x })
conn-IsTallied w c x eq watch h =
    let w' = record w { conn = update w.conn c x } in
    let uses = update-keeps (λ (y : Conn). y.use_tube) w.conn c x eq in
    let watches = update-keeps (λ (y : Conn). y.watch.items) w.conn c x watch in
    record {
      used = IsUsed-same w w' refl (λ t. refl) uses h.used;
      watched = IsWatched-same w w' refl (λ t. refl) watches h.watched;
      blank = h.blank;
      known = h.known;
      using = λ b t e. h.using b t (sym (uses b) ∙ e);
      watching = λ b. Below-same refl (sym (watches b)) (h.watching b);
    }

module _ (c : ℕ) where
  Quiet-Keeps : (v w : World) → Quiet v w → Keeps c v w
  Quiet-Keeps v w q (h, lt) = let e = q.fresh_conn in (Quiet-IsTallied v w q h, rw e lt)

  Keeps-trans : (u v w : World) → Keeps c u v → Keeps c v w → Keeps c u w
  Keeps-trans u v w p q h = q (p h)

  fill-Keeps : Within (Keeps c) (fill_extra_data c)
  unfolding fill_extra_data
  fill-Keeps = record {
    at = λ w.
        let x = w.conn c in
        elim (Bool-cases (x.cmd_len == 0)) [
          | inl e ↦ rw (fill_extra_data, e) (ends λ h. h)
          | inr e ↦
              rw (fill_extra_data, e)
                (Ends-bind _ (take_body c (extra c w)) w (take_body-Past c w) λ n v past.
                  let at = add64 x.cmd_len n in
                  let rest = sub64 (extra c w) n in
                  elim (Option-cases (slice x.cmd at (add64 at rest))) [
                    | inl q ↦ rw q stops
                    | inr (t, q) ↦ rw q (
                        ends λ h.
                          let (h', lt) = Quiet-Keeps w v past.1 h in
                          (conn-IsTallied v c _ refl refl h', lt))
                  ])
        ];
  }

  dispatch_cmd-Keeps : Within (Keeps c) (dispatch_cmd c)
  dispatch_cmd-Keeps =
      dispatch_cmd-Within (Keeps c) Quiet-Keeps Keeps-trans c fill-Keeps IsKnown
        (find_or_make-Keeps c) (use_tube-Keeps c) (watch_tube-Keeps c) (ignore_tube-Keeps c)

  serve_commands-Keeps : (rounds : ℕ) → Within (Keeps c) (serve_commands rounds c)
  unfolding serve_loop
  serve_commands-Keeps zero = record { at = λ w. stops }
  serve_commands-Keeps (suc rounds) = record {
    at = λ w.
        let x = w.conn c in
        let w' = record w {
          conn = update w.conn c (record x { cmd_len = scan_line_end x.cmd x.cmd_read });
        } in
        elim (Bool-cases (is_want_command x.state && positive x.cmd_read)) [
          | inr e ↦ rw (serve_loop, e) (ends λ h. h)
          | inl e ↦ elim (Bool-cases (scan_line_end x.cmd x.cmd_read == 0)) [
            | inl z ↦ rw (serve_loop, e, z) (ends λ (h, lt). (conn-IsTallied w c _ refl refl h, lt))
            | inr z ↦
                rw (serve_loop, e, z)
                  (Ends-bind _ (dispatch_cmd c) w' (dispatch_cmd-Keeps.at w') λ a u p.
                    Ends-bind _ (fill_extra_data c) u (fill-Keeps.at u) λ b v q.
                      Ends-mono ((serve_commands-Keeps rounds).at v)
                        λ d y r (h, lt). r (q (p (conn-IsTallied w c _ refl refl h, lt))))
          ]
        ];
  }

-- Serving the lines that a connection has read, in any number of rounds, panics, or keeps the tally:
-- if UsingCt and WatchingCt of each tube are the numbers of the connections that use it and of the
-- times that they watch it, modulo 2 ^ 64, and all tubes that are known, used and watched have been
-- made, then this is so after it.
pub serve_commands-IsTallied :
    (rounds c : ℕ) (w : World)
    → c < w.fresh_conn
    → IsTallied w
    → Ends (λ out. IsTallied out.1) (serve_commands rounds c w)
serve_commands-IsTallied rounds c w lt h =
    Ends-mono ((serve_commands-Keeps c rounds).at w) λ a v keeps. (keeps (h, lt)).0
