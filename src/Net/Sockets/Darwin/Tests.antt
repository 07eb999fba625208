-- ===== src/Net/Sockets/Darwin/Tests.antt =====
-- Events of kqueue, on a concrete input.
use gostalkd.Prelude.{◌≡◌, refl, false, true, inr, [], ◌∷◌, arith}
use gostalkd.Net.Sockets.{null, client}
use gostalkd.Net.Sockets.Darwin.{delete, adding, darwin_sock_want, darwin_sock_next}
use gostalkd.Net.Sockets.Darwin.Named.{darwin_sock_next-darwin_sock_want}

-- A connection that asks to write, is told that it can, and asks to read again.
darwin_sock_next-darwin_sock_want_example :
    (darwin_sock_next 65_535 65_534 1 null (record {
      r = 1;
      failed = false;
      event = record { filter = 65_534; eof = false; udata = client 3 };
    })
      ≡ record { socket = client 3; rw = b'w'; failed = false })
    × ((darwin_sock_want 65_535 65_534 1 (record { added = true; added_filter = 65_534 }) b'r').1
        ≡ delete 65_534 ∷ adding 65_535 65_534 1 b'r' ∷ [])
unfolding darwin_sock_want
darwin_sock_next-darwin_sock_want_example =
    darwin_sock_next-darwin_sock_want 65_535 65_534 1 (λ e. absurd (omega (arith, e)))
      (record { added = false; added_filter = 0 }) b'w' b'r' null (client 3) (inr refl) refl
