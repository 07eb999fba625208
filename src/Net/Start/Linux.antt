-- ===== src/Net/Start/Linux.antt =====
-- Start (net/serv.go) over sockNext of net/linux.go.
use Prim.Native.Nat.{bit_or, bit_and, bit_and-bitwise}
use gostalkd.Prelude.{
  ℕ, zero, suc, ◌≡◌, refl, true, false, Bool-cases, inl, inr, List, [], ◌∷◌, Option, none, some,
  ◌==◌, not, ◌&&◌, positive, length, arith,
}
use gostalkd.Machine.{World}
use gostalkd.Machine.Actions.{M, ◌>>=◌, ◌>>◌, return, when, done}
use gostalkd.Net.Conn.{minus_one}
use gostalkd.Net.Serve.{Accepted}
use gostalkd.Net.Sockets.{Pointed, Next}
use gostalkd.Net.Sockets.Linux.{Waited, linux_sock_next}
use gostalkd.Net.Start.{is_null, handle, start_round, start_loop}
use gostalkd.Net.Tick.{prot_tick}

-- as many protTicks
abbrev pub ticks : ℕ → M (Unit {0})
ticks zero = done
ticks (suc n) = do period ← prot_tick; ticks n

-- EpollWait returns -1 with an error only.
abbrev pub Fails : List (Waited × Accepted) → Type 0
Fails [] = Unit
Fails ((w, a) ∷ ws) = (w.r ≡ minus_one → w.failed ≡ true) × Fails ws

-- A round that only passes on a pointer behind protTick leaves what follows to protTick.
only_tick :
    (s : Pointed) (k : ℕ → M Pointed) (rest : Pointed → M (Unit {0})) (m : M (Unit {0}))
    (o : Option (ℕ × World))
    → ((t : ℕ) (v : World) → k t v ≡ some (s, v))
    → ((v : World) → rest s v ≡ m v)
    → (elim (elim o as (λ _. Option (Pointed × World)) [ none ↦ none | some (t, v) ↦ k t v ])
        as (λ _. Option (Unit {0} × World)) [ none ↦ none | some (a, v) ↦ rest a v ])
      ≡ elim o as (λ _. Option (Unit {0} × World)) [ none ↦ none | some (t, v) ↦ m v ]
only_tick s k rest m none h g = refl
only_tick s k rest m (some (t, v)) h g = rw (h t v) (g v)

bit_and-zero : (x : ℕ) → bit_and 0 x ≡ 0
bit_and-zero x = bit_and-bitwise 0 x

module _ (epoll_in epoll_out epoll_rdhup epoll_pri epoll_hup : ℕ) where
  -- the rounds of Start over what EpollWait returns
  abbrev pub linux_rounds : List (Waited × Accepted) → List ((ℕ → Pointed → Next) × Accepted)
  linux_rounds [] = []
  linux_rounds ((w, a) ∷ ws) =
      ((λ period s. linux_sock_next epoll_in epoll_out epoll_rdhup epoll_pri epoll_hup s w), a)
      ∷ linux_rounds ws

  -- the round after what sockNext leaves
  idle :
      (p : Waited) (s : Pointed)
      → (p.r ≡ minus_one → p.failed ≡ true)
      → (let n = linux_sock_next epoll_in epoll_out epoll_rdhup epoll_pri epoll_hup s p in
          not n.failed && (positive n.rw && not (is_null n.socket)))
        ≡ false
  unfolding linux_sock_next
  idle p s h = elim (Bool-cases p.failed) [
    | inl e ↦ elim (Bool-cases (p.r == minus_one)) [
      | inl q ↦ rw (e, q) refl
      | inr q ↦ rw (e, q) refl
    ]
    | inr e ↦
        let q : (p.r == minus_one) ≡ false = ground (arith, h) in
        elim (Bool-cases (positive p.r)) [
          | inl k ↦
              rw
                (
                  e,
                  q,
                  k,
                  bit_and-zero (bit_or epoll_hup epoll_rdhup),
                  bit_and-zero epoll_in,
                  bit_and-zero epoll_out,
                )
                refl
          | inr k ↦ rw (e, q, k) refl
        ]
  ]

  -- Where EpollWait returns -1 with an error only, Start does on Linux, in any number of rounds, what
  -- as many protTicks do, whatever EpollWait returns: no connection is accepted, and none is served.
  pub start_loop-ticks :
      (ws : List (Waited × Accepted)) (s : Pointed) (w : World)
      → Fails ws
      → start_loop (linux_rounds ws) s w ≡ ticks (length ws) w
  unfolding start_loop start_round
  start_loop-ticks [] s w h = refl
  start_loop-ticks ((p, a) ∷ ws) s w (h, hs) =
      let i = idle p s h in
      let n = linux_sock_next epoll_in epoll_out epoll_rdhup epoll_pri epoll_hup s p in
      only_tick n.socket
        (λ t. (do
          when (not n.failed && (positive n.rw && not (is_null n.socket))) (handle a n.socket n.rw)
          return n.socket))
        (start_loop (linux_rounds ws)) (ticks (length ws)) (prot_tick w) (λ t v. rw i refl)
        (λ v. start_loop-ticks ws _ v hs)
