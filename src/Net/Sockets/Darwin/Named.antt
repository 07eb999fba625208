-- ===== src/Net/Sockets/Darwin/Named.antt =====
-- How sockWant and sockNext of net/darwin.go fit together.
use gostalkd.Prelude.{
  ◌≡◌, ◌≢◌, refl, false, true, inl, inr, ◌∷◌, [], ◌==◌, positive, arith, ℕ, ==_self, ◌⊎◌,
}
use gostalkd.Net.Sockets.Darwin.{Sock, delete, adding, darwin_sock_want, darwin_sock_next}
use gostalkd.Net.Sockets.{Pointed}

module _ (evfilt_read evfilt_write note_lowat : ℕ) (differ : evfilt_read ≢ evfilt_write) where
  -- If sockWant has asked for the byte 'r' or 'w', and Kevent then delivers one event with the filter
  -- that the socket keeps, not at the end of the file, sockNext points at the socket of the event
  -- and names the byte; the next sockWant first deletes that filter.
  pub darwin_sock_next-darwin_sock_want :
      (s : Sock) (byte next : ℕ) (old new : Pointed)
      → (byte ≡ b'r') ⊎ (byte ≡ b'w')
      → positive next ≡ true
      → (let s' = (darwin_sock_want evfilt_read evfilt_write note_lowat s byte).0 in
          (darwin_sock_next evfilt_read evfilt_write note_lowat old (record {
            r = 1;
            failed = false;
            event = record { filter = s'.added_filter; eof = false; udata = new };
          })
            ≡ record { socket = new; rw = byte; failed = false })
          × ((darwin_sock_want evfilt_read evfilt_write note_lowat s' next).1
              ≡ delete s'.added_filter ∷ adding evfilt_read evfilt_write note_lowat next ∷ []))
  unfolding darwin_sock_want darwin_sock_next
  darwin_sock_next-darwin_sock_want s byte next old new (inl h) k =
      rw (h, k, ==_self evfilt_read) (refl, refl)
  darwin_sock_next-darwin_sock_want s byte next old new (inr h) k =
      let other : (evfilt_write == evfilt_read) ≡ false = ground arith in
      rw (h, k, ==_self evfilt_write, other) (refl, refl)
