-- ===== src/Net/Start/Tests.antt =====
-- Rounds of Start on Linux, on a concrete input.
use gostalkd.Prelude.{◌≡◌, refl, false, true, List, [], ◌∷◌, arith}
use gostalkd.Machine.Sample.{sample_world}
use gostalkd.Net.Conn.{minus_one}
use gostalkd.Net.Serve.{Accepted, accepted, refused}
use gostalkd.Net.Sockets.{null}
use gostalkd.Net.Sockets.Linux.{Waited}
use gostalkd.Net.Start.{start_loop}
use gostalkd.Net.Start.Linux.{ticks, linux_rounds, start_loop-ticks}

-- an event, an error, and no event
abbrev waits : List (Waited × Accepted)
waits =
    (record { r = 1; failed = false }, accepted)
    ∷ (record { r = minus_one; failed = true }, refused)
    ∷ (record { r = 0; failed = false }, refused)
    ∷ []

start_loop-ticks_example :
    start_loop (linux_rounds 1 4 8192 2 16 waits) null sample_world ≡ ticks 3 sample_world
start_loop-ticks_example =
    start_loop-ticks 1 4 8192 2 16 waits null sample_world
      ((λ e. absurd (omega (arith, e))), ((λ e. refl), ((λ e. absurd (omega (arith, e))), tt)))
