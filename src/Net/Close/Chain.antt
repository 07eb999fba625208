-- ===== src/Net/Close/Chain.antt =====
-- The queue of requests as a chain of connections (net/prot.go: EpollQApply, EpollQRmConn).
use gostalkd.Prelude.{
  ◌++◌, ◌∙◌, ap, ==_self, ℕ, zero, suc, ◌+◌, ◌*◌, ◌≤◌, ◌<◌, ◌≡◌, ◌≢◌, refl, sym, inl, inr, true,
  false, Bool-cases, List, [], ◌∷◌, Option, none, some, Yields, yields, Yields-mono, All, ◌==◌,
  if◌then◌else◌, update, length, arith,
}
use gostalkd.Machine.{World, Conn}
use gostalkd.Machine.Actions.{◌>>=◌, while_some}
use gostalkd.Machine.Frame.{update-keeps}
use gostalkd.Machine.Laws.{after}
use gostalkd.Net.Close.{sock_want, take_queued, apply_one, epoll_q_apply, rm_loop, epoll_q_rm_conn}

-- The connections from a head on, by their Next, are those of the list.
abbrev pub Chain : (ℕ → Conn) → Option ℕ → List ℕ → Type 0
Chain at head [] = head ≡ none
Chain at head (x ∷ xs) = (head ≡ some x) × Chain at (at x).next xs

abbrev pub Misses : ℕ → List ℕ → Type 0
Misses x = All (λ y. y ≢ x)

-- No address stands twice in the list.
abbrev pub Distinct : List ℕ → Type 0
Distinct [] = Unit
Distinct (x ∷ xs) = Misses x xs × Distinct xs

pub Chain-update :
    (at : ℕ → Conn) (head : Option ℕ) (x : ℕ) (v : Conn) (xs : List ℕ)
    → Misses x xs
    → Chain at head xs
    → Chain (update at x v) head xs
Chain-update at head x v [] m h = h
Chain-update at head x v (y ∷ xs) m h =
    let other : (y == x) ≡ false = ground (arith, m.0) in
    (h.0, rw other (Chain-update at (at y).next x v xs m.1 h.1))

-- the memory with the head of the queue taken off
abbrev taken : World → ℕ → World
taken w x = record w {
  epoll_q = (w.conn x).next;
  conn = update w.conn x (record (w.conn x) { next = none });
}

take_queued-some :
    (w : World) (x : ℕ) → w.epoll_q ≡ some x → take_queued w ≡ some (some x, taken w x)
unfolding take_queued
take_queued-some w x h = simp h refl

take_queued-none : (w : World) → w.epoll_q ≡ none → take_queued w ≡ some (none, w)
unfolding take_queued
take_queued-none w h = simp h refl

append_none : {A : Type 0} (xs : List A) → xs ++ [] ≡ xs
append_none [] = refl
append_none (x ∷ xs) = ap (◌∷◌ x) (append_none xs)

same_rw :
    (at : ℕ → Conn) (x : ℕ) (v : Conn)
    → v.rw ≡ (at x).rw
    → (b : ℕ) → (update at x v b).rw ≡ (at b).rw
same_rw at x v h b = update-keeps (λ (y : Conn). y.rw) at x v h b

-- What sockWant is to be called with: each connection, in turn, with its Rw.
abbrev pub requests_of : (ℕ → Conn) → List ℕ → List (ℕ × ℕ)
requests_of at [] = []
requests_of at (x ∷ xs) = (x, (at x).rw) ∷ requests_of at xs

requests_of-ext :
    (at at' : ℕ → Conn) (xs : List ℕ)
    → ((b : ℕ) → (at' b).rw ≡ (at b).rw)
    → requests_of at' xs ≡ requests_of at xs
requests_of-ext at at' [] h = refl
requests_of-ext at at' (x ∷ xs) h = rw (h x, requests_of-ext at at' xs h)

append_one : {A : Type 0} (xs : List A) (x : A) (ys : List A) → (xs ++ x ∷ []) ++ ys ≡ xs ++ x ∷ ys
append_one [] x ys = refl
append_one (y ∷ xs) x ys = ap (◌∷◌ y) (append_one xs x ys)

-- What EpollQApply leaves: an empty queue, none of whose connections has a Next, and what sockWant
-- has been called with.
pub record Applied (w : World) (xs : List ℕ) (after : World) : Type 0 where
  pub empty : after.epoll_q ≡ none
  pub cut : All (λ x. (after.conn x).next ≡ none) xs
  pub stays_cut : (b : ℕ) → (w.conn b).next ≡ none → (after.conn b).next ≡ none
  pub asked : after.asked ≡ w.asked ++ requests_of w.conn xs

apply_one-wanted :
    (w : World) (x : ℕ)
    → w.outside.wanting w.requests ≡ true
    → apply_one x w
      ≡ some
          (tt, record w { requests = w.requests + 1; asked = w.asked ++ (x, (w.conn x).rw) ∷ [] })
unfolding apply_one sock_want
apply_one-wanted w x h = simp h refl

while_some-end :
    (fuel : ℕ) (w : World)
    → w.epoll_q ≡ none
    → while_some (suc fuel) take_queued apply_one w ≡ some (tt, w)
unfolding while_some
while_some-end fuel w h = rw (while_some, ◌>>=◌, take_queued-none w h)

-- the memory after the request of the connection at the head
abbrev asked_for : World → ℕ → World
asked_for w x =
    let v = taken w x in
    record v { requests = w.requests + 1; asked = w.asked ++ (x, (v.conn x).rw) ∷ [] }

while_some-step :
    (fuel : ℕ) (w : World) (x : ℕ)
    → w.epoll_q ≡ some x
    → w.outside.wanting w.requests ≡ true
    → while_some (suc fuel) take_queued apply_one w
      ≡ while_some fuel take_queued apply_one (asked_for w x)
unfolding while_some
while_some-step fuel w x h k =
    rw (while_some, ◌>>=◌, take_queued-some w x h, apply_one-wanted (taken w x) x k)

while_some-Applied :
    (fuel : ℕ) (w : World) (xs : List ℕ)
    → ((n : ℕ) → w.outside.wanting n ≡ true)
    → Chain w.conn w.epoll_q xs
    → Distinct xs
    → length xs < fuel
    → Yields (λ out. Applied w xs out.1) (while_some fuel take_queued apply_one w)
while_some-Applied zero w xs want chain apart h = absurd (omega arith)
while_some-Applied (suc fuel) w [] want chain apart h = rw (while_some-end fuel w chain) (
    yields
      record { empty = chain; cut = tt; stays_cut = λ b e. e; asked = sym (append_none w.asked) })
while_some-Applied (suc fuel) w (x ∷ xs) want chain apart h =
    let v : Conn = record (w.conn x) { next = none } in
    let rest = Chain-update w.conn (w.conn x).next x v xs apart.0 chain.1 in
    rw (while_some-step fuel w x chain.0 (want w.requests)) (
      Yields-mono (while_some-Applied fuel (asked_for w x) xs want rest apart.1 (omega arith))
        λ out p. record {
          empty = p.empty;
          cut = (p.stays_cut x (rw (==_self x)), p.cut);
          stays_cut =
              λ b e. p.stays_cut b (elim (Bool-cases (b == x)) [ inl q ↦ rw q | inr q ↦ rw q e ]);
          asked =
              let same = same_rw w.conn x v refl in
              p.asked
              ∙ append_one w.asked (x, (update w.conn x v x).rw)
                  (requests_of (update w.conn x v) xs)
              ∙ rw (same x, requests_of-ext w.conn (update w.conn x v) xs same) refl;
        })

-- If the event queue takes every request, and the queue is a chain of connections none of which
-- is in it twice, no more than there are connections: EpollQApply ends, calls sockWant
-- once for each of them in turn, with its Rw and for no other connection, and leaves the queue empty
-- and their Next nil.
pub epoll_q_apply-Applied :
    (w : World) (xs : List ℕ)
    → ((n : ℕ) → w.outside.wanting n ≡ true)
    → Chain w.conn w.epoll_q xs
    → Distinct xs
    → length xs ≤ w.fresh_conn
    → Yields (λ out. Applied w xs out.1) (epoll_q_apply w)
unfolding epoll_q_apply
epoll_q_apply-Applied w xs want chain apart h =
    while_some-Applied (2 * w.fresh_conn + 2) w xs want chain apart (omega arith)

-- The list in reverse, without one of its items, before another.
abbrev pub rev_but : ℕ → List ℕ → List ℕ → List ℕ
rev_but c [] behind = behind
rev_but c (x ∷ xs) behind = rev_but c xs (if x == c then behind else x ∷ behind)

rm_loop-end :
    (fuel c : ℕ) (h : Option ℕ) (w : World)
    → w.epoll_q ≡ none
    → rm_loop (suc fuel) c h w ≡ some (h, w)
unfolding rm_loop
rm_loop-end fuel c h w e = rw (rm_loop, ◌>>=◌, take_queued-none w e)

-- the memory after a round of EpollQRmConn
abbrev moved : World → ℕ → ℕ → Option ℕ → World
moved w c x h =
    let v = taken w x in
    if x == c then v else record v { conn = update v.conn x (record (v.conn x) { next = h }) }

rm_loop-step :
    (fuel c x : ℕ) (h : Option ℕ) (w : World)
    → w.epoll_q ≡ some x
    → rm_loop (suc fuel) c h w ≡ rm_loop fuel c (if x == c then h else some x) (moved w c x h)
unfolding rm_loop
rm_loop-step fuel c x h w e = elim (Bool-cases (x == c)) [
  | inl q ↦ rw (rm_loop, ◌>>=◌, take_queued-some w x e, q, q)
  | inr q ↦ rw (rm_loop, ◌>>=◌, take_queued-some w x e, q, q)
]

-- No address stands in both lists.
abbrev Apart : List ℕ → List ℕ → Type 0
Apart behind = All (λ y. Misses y behind)

Apart-next : (x : ℕ) (xs behind : List ℕ) → Misses x xs → Apart behind xs → Apart (x ∷ behind) xs
Apart-next x [] behind m a = tt
Apart-next x (y ∷ xs) behind m a = ((λ e. m.0 (sym e), a.0), Apart-next x xs behind m.1 a.1)

rm_loop-Chain :
    (fuel c : ℕ) (h : Option ℕ) (w : World) (xs behind : List ℕ)
    → Chain w.conn w.epoll_q xs
    → Chain w.conn h behind
    → Distinct xs
    → Apart behind xs
    → length xs < fuel
    → Yields (λ out. Chain out.1.conn out.0 (rev_but c xs behind)) (rm_loop fuel c h w)
rm_loop-Chain zero c h w xs behind chain chain' d a k = absurd (omega arith)
rm_loop-Chain (suc fuel) c h w [] behind chain chain' d a k =
    rw (rm_loop-end fuel c h w chain) (yields chain')
rm_loop-Chain (suc fuel) c h w (x ∷ xs) behind chain chain' d a k =
    let v : Conn = record (w.conn x) { next = none } in
    let u : Conn = record (w.conn x) { next = h } in
    let at = update w.conn x v in
    let rest = Chain-update w.conn (w.conn x).next x v xs d.0 chain.1 in
    let done = Chain-update w.conn h x v behind a.0 chain' in
    elim (Bool-cases (x == c)) [
      | inl q ↦
          rw (rm_loop-step fuel c x h w chain.0, q)
            (rm_loop-Chain fuel c h (taken w x) xs behind rest done d.1 a.1 (omega arith))
      | inr q ↦
          rw (rm_loop-step fuel c x h w chain.0, q)
            (rm_loop-Chain fuel c (some x)
              (let t = taken w x in record t { conn = update at x (record (at x) { next = h }) }) xs
              (x ∷ behind) (Chain-update at (w.conn x).next x _ xs d.0 rest)
              (refl, rw (==_self x) (Chain-update at h x _ behind a.0 done)) d.1
              (Apart-next x xs behind d.0 a.1) (omega arith))
    ]

-- If the queue is a chain of connections none of which is in it twice, no more than there are
-- connections: EpollQRmConn ends, and leaves the chain in reverse without the connection.
pub epoll_q_rm_conn-Chain :
    (w : World) (c : ℕ) (xs : List ℕ)
    → Chain w.conn w.epoll_q xs
    → Distinct xs
    → length xs ≤ w.fresh_conn
    → Yields (λ out. Chain out.1.conn out.1.epoll_q (rev_but c xs [])) (epoll_q_rm_conn c w)
unfolding epoll_q_rm_conn
epoll_q_rm_conn-Chain w c xs chain d k =
    after (rm_loop (2 * w.fresh_conn + 2) c none) _ w
      (rm_loop-Chain (2 * w.fresh_conn + 2) c none w xs [] chain refl d (apart_nil xs)
        (omega arith))
      λ out p. yields p
  where
    apart_nil : (ys : List ℕ) → Apart [] ys
    apart_nil [] = tt
    apart_nil (y ∷ ys) = (tt, apart_nil ys)
