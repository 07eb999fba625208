-- ===== src/Net/Watch/Counts.antt =====
-- WatchingCt and UsingCt: what NewConn's callbacks and the handlers keep in the tubes
-- (net/conn.go: onWatch, onIgnore; net/prot.go: dispatchOpUse).
use gostalkd.Prelude.{
  ==_self, ℕ, zero, suc, ◌+◌, ◌%◌, ◌<◌, ◌≡◌, ◌≢◌, refl, ◌∙◌, ap, inl, inr, false, Bool-cases, [],
  ◌∷◌, Yields, yields, ◌==◌, if◌then◌else◌, add64, sub64, mod64, update, arith,
}
use gostalkd.Structure.Ms
use gostalkd.Structure.Ms.{Ms, new_ms}
use gostalkd.Structure.Ms.Counted.{
  IsCounting, Counts, count, one_if, append-Counts, remove-Counts, clear-Counts,
}
use gostalkd.Structure.Ms.Laws.{clear_correct, removals}
use gostalkd.Core.Tube.{Tube}
use gostalkd.Machine.{World, Conn}
use gostalkd.Net.Conn.{address_eq}
use gostalkd.Net.Watch.{watching, on_watch, on_ignore, watch_append, watch_remove, watch_clear}

-- Sums over the addresses below a bound, and without one of them.
abbrev pub sum : (ℕ → ℕ) → ℕ → ℕ
sum f zero = 0
sum f (suc n) = f n + sum f n

abbrev pub sum_but : ℕ → (ℕ → ℕ) → ℕ → ℕ
sum_but c f = sum (λ b. if b == c then 0 else f b)

sum-beyond : (c : ℕ) (f : ℕ → ℕ) (n : ℕ) → n < suc c → sum f n ≡ sum_but c f n
sum-beyond c f zero h = refl
sum-beyond c f (suc n) h =
    let other : (n == c) ≡ false = ground arith in
    let rest = sum-beyond c f n (omega arith) in rw (other, rest)

pub sum-split : (c : ℕ) (f : ℕ → ℕ) (n : ℕ) → c < n → sum f n ≡ f c + sum_but c f n
sum-split c f zero h = absurd (omega arith)
sum-split c f (suc n) h = elim (Bool-cases (n == c)) [
  | inl e ↦
      let q : n ≡ c = ground arith in
      let rest = sum-beyond c f n (omega arith) in
      rw (e, rest) (ap (λ k. f k + sum_but c f n) q ∙ omega arith)
  | inr e ↦ (let rest = sum-split c f n (ground arith) in rw (e, rest) (omega arith))
]

pub sum_but-ext :
    (c : ℕ) (f g : ℕ → ℕ) (n : ℕ) → ((b : ℕ) → b ≢ c → f b ≡ g b) → sum_but c f n ≡ sum_but c g n
sum_but-ext c f g zero h = refl
sum_but-ext c f g (suc n) h = elim (Bool-cases (n == c)) [
  | inl e ↦ rw (e, sum_but-ext c f g n h)
  | inr e ↦ rw (e, sum_but-ext c f g n h, h n (ground arith))
]

on_watch_lem :
    (m : Ms ℕ) (x i : ℕ) (at : ℕ → Tube) (a : ℕ)
    → (at a).watching_ct < mod64
    → (on_watch m x i at a).watching_ct ≡ add64 (at a).watching_ct (one_if a x)
unfolding on_watch
on_watch_lem m x i at a lt = elim (Bool-cases (a == x)) [
  | inl h ↦ (let q : a ≡ x = ground arith in rw (h, q))
  | inr h ↦ rw h (omega arith)
]

on_ignore_lem :
    (m : Ms ℕ) (x i : ℕ) (at : ℕ → Tube) (a : ℕ)
    → (at a).watching_ct < mod64
    → (on_ignore m x i at a).watching_ct ≡ sub64 (at a).watching_ct (one_if a x)
unfolding on_ignore
on_ignore_lem m x i at a lt = elim (Bool-cases (a == x)) [
  | inl h ↦ (let q : a ≡ x = ground arith in rw (h, q))
  | inr h ↦ rw h (omega arith)
]

-- The callbacks count in WatchingCt, with its wrap-around.
unfoldable watching-IsCounting : IsCounting (ℕ → Tube) watching
unfolding watching
watching-IsCounting = record {
  number = λ a at. (at a).watching_ct;
  insert_adds = on_watch_lem;
  remove_takes = on_ignore_lem;
}

-- How often the connections below `n` watch a tube, all of them and all but one.
abbrev pub watches : (ℕ → Conn) → ℕ → ℕ → ℕ
watches at t b = count t (at b).watch.items

-- WatchingCt is the number of times that the connections watch the tube, modulo 2 ^ 64.
abbrev pub IsWatched : World → Type 0
IsWatched w = (t : ℕ) → (w.tubes.at t).watching_ct ≡ sum (watches w.conn t) w.fresh_conn % mod64

-- the count of the connections but one, and of all of them
module _ (w : World) (c : ℕ) (h : c < w.fresh_conn) where
  others : ℕ → ℕ
  others t = sum_but c (watches w.conn t) w.fresh_conn

  IsWatched-Counts : IsWatched w → Counts watching-IsCounting others (w.conn c).watch w.tubes.at
  unfolding watching-IsCounting others
  IsWatched-Counts k t =
      let split = sum-split c (watches w.conn t) w.fresh_conn h in omega (arith, k t, split)

  -- the memory with another list for the connection, and other tubes
  abbrev watched : Ms ℕ → (ℕ → Tube) → World
  watched m at = record w {
    conn = update w.conn c (record (w.conn c) { watch = m });
    tubes = record (w.tubes) { at = at };
  }

  Counts-IsWatched :
      (m : Ms ℕ) (at : ℕ → Tube) → Counts watching-IsCounting others m at → IsWatched (watched m at)
  unfolding watching-IsCounting others
  Counts-IsWatched m at k t =
      let at' = update w.conn c (record (w.conn c) { watch = m }) in
      let split = sum-split c (watches at' t) w.fresh_conn h in
      let here : watches at' t c ≡ count t m.items = rw (==_self c) in
      let same : sum_but c (watches at' t) w.fresh_conn
          ≡ sum_but c (watches w.conn t) w.fresh_conn =
        sum_but-ext c (watches at' t) (watches w.conn t) w.fresh_conn
          λ b ne. let other : (b == c) ≡ false = ground arith in rw other in
      omega (arith, k t, split, here, same)

  -- Append to the list of a connection keeps WatchingCt right.
  pub watch_append-IsWatched :
      (t : ℕ) → IsWatched w → Yields (λ out. IsWatched out.1) (watch_append c t w)
  unfolding watch_append
  watch_append-IsWatched t k =
      let (l, m, at) = Ms.append watching (w.conn c).watch (t ∷ []) w.tubes.at in
      yields (
        Counts-IsWatched m at (
          append-Counts watching-IsCounting others (w.conn c).watch (t ∷ []) w.tubes.at
            (IsWatched-Counts k)))

  -- Remove from the list of a connection keeps WatchingCt right.
  pub watch_remove-IsWatched :
      (t : ℕ) → IsWatched w → Yields (λ out. IsWatched out.1) (watch_remove c t w)
  unfolding watch_remove
  watch_remove-IsWatched t k =
      let (found, m, at) = Ms.remove watching (w.conn c).watch t w.tubes.at in
      yields (
        Counts-IsWatched m at (
          remove-Counts watching-IsCounting others (w.conn c).watch t w.tubes.at
            (IsWatched-Counts k)))

  -- Clear of the list of a connection keeps WatchingCt right.
  pub watch_clear-IsWatched : IsWatched w → Yields (λ out. IsWatched out.1) (watch_clear c w)
  unfolding watch_clear
  watch_clear-IsWatched k =
      let cleared = clear_correct watching (w.conn c).watch w.tubes.at in
      let at = removals watching (w.conn c).watch.last (w.conn c).watch.items w.tubes.at in
      rw (watch_clear, cleared)
        (yields (
          Counts-IsWatched new_ms at λ t.
            clear-Counts watching-IsCounting others (w.conn c).watch new_ms w.tubes.at at
              (IsWatched-Counts k) cleared t
            ∙ omega arith))
