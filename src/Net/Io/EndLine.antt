-- ===== src/Net/Io/EndLine.antt =====
-- The state of waiting for the end of a line that is too long (net/serv.go: connProcessIO).
use gostalkd.Prelude.{
  ==_self, ℕ, ◌+◌, ◌≤◌, ◌<◌, ◌≢◌, ◌≡◌, refl, ◌∙◌, ◌⊎◌, inl, inr, false, Bool-cases, ◌++◌, Bytes,
  ltb, ◌==◌, add64, sub64, slt, half64, length, length-append, length-take, take, Yields, yields,
  Yields-mono, update, arith,
}
use gostalkd.Machine.{World, Conn, want_end_line, close}
use gostalkd.Machine.Laws.{after, Receipt-cases}
use gostalkd.Machine.Actions.{◌>>=◌}
use gostalkd.Net.Protocol.{scan_line_end}
use gostalkd.Net.Reply.{line_buf_size}
use gostalkd.Net.Io.{read_end_line, sock_read, append_cmd, end_line_read}

-- scanLineEnd finds no line if the number of bytes is not the buffer's length.
pub scan_line_end-zero : (s : Bytes) (n : ℕ) → length s ≢ n → scan_line_end s n ≡ 0
unfolding scan_line_end
scan_line_end-zero s n h =
    let other : (length s == n) ≡ false = ground arith in
    elim (Bool-cases (ltb (length s) 2)) [
      | inl e ↦ rw (scan_line_end, e)
      | inr e ↦ rw (scan_line_end, e, other)
    ]

-- The connection waits for the end of a line, and has bytes in Cmd that CmdRead does not count.
pub record IsLost (w : World) (c : ℕ) : Type 0 where
  pub waits : (w.conn c).state ≡ want_end_line
  pub below : (w.conn c).cmd_read < line_buf_size
  pub uncounted : (w.conn c).cmd_read < length (w.conn c).cmd

-- What appending bytes leaves, to a Cmd that CmdRead does not count in full.
record Appended (w : World) (c : ℕ) (bs : Bytes) (out : ℕ × World) : Type 0 where
  none_found : out.0 ≡ 0
  state : (out.1.conn c).state ≡ (w.conn c).state
  cmd : length (out.1.conn c).cmd ≡ length (w.conn c).cmd + length bs
  read : (out.1.conn c).cmd_read ≡ (w.conn c).cmd_read + length bs
  reply : (out.1.conn c).reply ≡ (w.conn c).reply
  queue : out.1.epoll_q ≡ w.epoll_q

append_cmd-Appended :
    (w : World) (c : ℕ) (bs : Bytes)
    → (w.conn c).cmd_read < length (w.conn c).cmd
    → (w.conn c).cmd_read + length bs < half64
    → Yields (Appended w c bs) (append_cmd c bs w)
unfolding append_cmd
append_cmd-Appended w c bs h k =
    let x = w.conn c in
    let x' : Conn = record x { cmd = x.cmd ++ bs; cmd_read = add64 x.cmd_read (length bs) } in
    let split = length-append x.cmd bs in
    let sum : add64 x.cmd_read (length bs) ≡ x.cmd_read + length bs = omega arith in
    yields record {
      none_found =
          scan_line_end-zero (update w.conn c x' c).cmd (update w.conn c x' c).cmd_read (λ e.
            let e' : length (x.cmd ++ bs) ≡ x.cmd_read + length bs = rw (==_self c, sum) at e in
            omega (arith, split, e'));
      state = rw (==_self c);
      cmd = rw (==_self c) split;
      read = rw (==_self c) sum;
      reply = rw (==_self c);
      queue = refl;
    }

-- What follows after the bytes have been read, of a connection that has been lost.
pub record Lost (w : World) (c : ℕ) (after : World) : Type 0 where
  pub left : IsLost after c ⊎ ((after.conn c).state ≡ close)
  pub reply : (after.conn c).reply ≡ (w.conn c).reply
  pub queue : after.epoll_q ≡ w.epoll_q

end_line_read-Lost :
    (w : World) (c : ℕ)
    → (w.conn c).state ≡ want_end_line
    → (w.conn c).cmd_read ≤ line_buf_size
    → (w.conn c).cmd_read < length (w.conn c).cmd
    → Yields (λ out. Lost w c out.1) (end_line_read c 0 w)
unfolding end_line_read
end_line_read-Lost w c st le lt = elim (Bool-cases ((w.conn c).cmd_read == line_buf_size)) [
  | inl e ↦
      rw (end_line_read, e)
        (yields record {
          left = inl record {
            waits = rw (==_self c) st;
            below = rw (==_self c) (omega arith);
            uncounted = rw (==_self c) (omega arith);
          };
          reply = rw (==_self c);
          queue = refl;
        })
  | inr e ↦
      rw (end_line_read, e)
        (yields record {
          left = inl record { waits = st; below = ground arith; uncounted = lt };
          reply = refl;
          queue = refl;
        })
]

-- A connection that has been lost stays lost until its peer hangs up: whatever reading gives,
-- connProcessIO does not panic, leaves it waiting for the end of a line that it cannot find, or
-- closed, and neither replies nor asks for another event.
pub read_end_line-Lost :
    (w : World) (c : ℕ) → IsLost w c → Yields (λ out. Lost w c out.1) (read_end_line c w)
unfolding read_end_line sock_read
read_end_line-Lost w c h =
    let x = w.conn c in
    let size = sub64 line_buf_size x.cmd_read in
    let fits : slt size 0 ≡ false = ground (arith, h.below) in
    elim (Receipt-cases (w.outside.receiving w.requests size)) [
      | inl q ↦
          rw (read_end_line, sock_read, fits, q)
            (yields record {
              left = inl record { waits = h.waits; below = h.below; uncounted = h.uncounted };
              reply = refl;
              queue = refl;
            })
      | inr (inl q) ↦
          rw (read_end_line, sock_read, fits, q)
            (yields record { left = inr (rw (==_self c)); reply = rw (==_self c); queue = refl })
      | inr (inr (bs, q)) ↦
          rw (read_end_line, sock_read, fits, q)
            (lost_bytes (take size bs) (omega (arith, h.below, length-take size bs)))
    ]
  where
    w' : World
    w' = record w { requests = w.requests + 1 }

    lost_bytes :
        (bs : Bytes)
        → (w.conn c).cmd_read + length bs ≤ line_buf_size
        → Yields (λ out. Lost w c out.1) ((append_cmd c bs >>= end_line_read c) w')
    lost_bytes bs k =
        after (append_cmd c bs) (end_line_read c) w'
          (append_cmd-Appended w' c bs h.uncounted (omega arith))
          λ out p.
            let waits : (out.1.conn c).state ≡ want_end_line = p.state ∙ h.waits in
            rw (p.none_found) (
              Yields-mono
                (end_line_read-Lost out.1 c waits (omega (arith, p.read, k))
                  (omega (arith, p.read, p.cmd, h.uncounted)))
                λ last q. record {
                  left = q.left;
                  reply = q.reply ∙ p.reply;
                  queue = q.queue ∙ p.queue;
                })
