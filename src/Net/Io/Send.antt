-- ===== src/Net/Io/Send.antt =====
-- Sending a reply in parts (net/serv.go: connProcessIO, the case StateSendWord).
use gostalkd.Prelude.{
  ==_self, ℕ, suc, ◌+◌, ◌-◌, ◌*◌, ◌≤◌, ◌<◌, ◌≡◌, refl, true, false, some, none, Yields, yields,
  ◌==◌, add64, sub64, slt, half64, length, arith,
}
use gostalkd.Machine.{World, wrote}
use gostalkd.Machine.Actions.{◌>>=◌}
use gostalkd.Net.Io.{write_word, slice_size, sock_write}

-- A reply that has been sent in part: so many of its bytes, but not all.
pub record IsPart (w : World) (c : ℕ) : Type 0 where
  pub whole : (w.conn c).reply_len ≡ length (w.conn c).reply
  pub short : length (w.conn c).reply < half64
  pub partly : (w.conn c).reply_sent < (w.conn c).reply_len

slice_size-within :
    (w : World) (a b capacity : ℕ)
    → a ≤ b
    → b ≤ capacity
    → capacity < half64
    → slice_size a b capacity w ≡ some (b - a, w)
unfolding slice_size
slice_size-within w a b capacity le le' lt =
    let up : slt b a ≡ false = ground arith in
    let inside : slt capacity b ≡ false = ground arith in
    let positive : slt a 0 ≡ false = ground arith in
    let size : sub64 b a ≡ b - a = omega arith in simp (up, inside, positive, size) refl

module _ (w : World) (c : ℕ) (h : IsPart w c) where
  -- Once more than half of a reply has been sent, and not the whole, connProcessIO panics.
  pub write_word-late : (w.conn c).reply_len < 2 * (w.conn c).reply_sent → write_word c w ≡ none
  unfolding write_word slice_size
  write_word-late late =
      let x = w.conn c in
      let past : slt (sub64 x.reply_len x.reply_sent) x.reply_sent ≡ true =
        ground (arith, h.whole, h.short, h.partly) in
      simp past refl

  -- While no more than half of a reply has been sent, a write that takes some bytes, but not all
  -- that are missing, does not panic, leaves the connection in its state, and adds those bytes to
  -- the bytes sent.
  pub write_word-early :
      (n : ℕ)
      → 2 * (w.conn c).reply_sent ≤ (w.conn c).reply_len
      → w.outside.sending w.requests ((w.conn c).reply_len - 2 * (w.conn c).reply_sent)
        ≡ wrote (suc n)
      → (w.conn c).reply_sent + suc n < (w.conn c).reply_len
      → Yields
          (λ out.
            ((out.1.conn c).state ≡ (w.conn c).state)
            × ((out.1.conn c).reply_sent ≡ (w.conn c).reply_sent + suc n))
          (write_word c w)
  unfolding write_word sock_write
  write_word-early n early sent more =
      let x = w.conn c in
      let end : sub64 x.reply_len x.reply_sent ≡ x.reply_len - x.reply_sent =
        omega (arith, h.whole, h.short, h.partly) in
      let size : x.reply_len - x.reply_sent - x.reply_sent ≡ x.reply_len - 2 * x.reply_sent =
        omega arith in
      let within : slice_size x.reply_sent (sub64 x.reply_len x.reply_sent) (length x.reply) w
          ≡ some (x.reply_len - 2 * x.reply_sent, w) =
        rw (end, ← size)
          (slice_size-within w x.reply_sent (x.reply_len - x.reply_sent) (length x.reply)
            (omega arith) (omega (arith, h.whole)) h.short) in
      let sum : add64 x.reply_sent (suc n) ≡ x.reply_sent + suc n =
        omega (arith, h.whole, h.short, more) in
      let open_end : (x.reply_sent + suc n == x.reply_len) ≡ false = ground arith in
      let some_sent : (suc n == 0) ≡ false = ground arith in
      rw (write_word, ◌>>=◌, within, sent, some_sent, ==_self c, sum, open_end)
        (yields (rw (==_self c), rw (==_self c)))
