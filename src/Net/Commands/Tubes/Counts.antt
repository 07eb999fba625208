-- ===== src/Net/Commands/Tubes/Counts.antt =====
-- The handlers of watch, ignore and use keep the numbers of the tubes (net/prot.go).
use gostalkd.Prelude.{
  ==_self, ℕ, ◌%◌, ◌≤◌, ◌<◌, ◌≡◌, inl, inr, true, false, Bool, Bool-cases, Option-cases, Option,
  none, some, Yields, yields, Bytes, ltb, ◌==◌, if◌then◌else◌, add64, sub64, mod64, update, length,
  arith,
}
use gostalkd.Structure.Ms
use gostalkd.Core.Tube.{Tube, find_loop}
use gostalkd.Machine.{World, Conn}
use gostalkd.Core.Wal.Files.{same_address}
use gostalkd.Machine.Actions.{◌>>=◌}
use gostalkd.Net.Conn.{address_eq}
use gostalkd.Net.Watch.{watch_remove}
use gostalkd.Net.Watch.Counts.{
  IsWatched, sum, sum-split, sum_but-ext, watch_append-IsWatched, watch_remove-IsWatched,
}
use gostalkd.Net.Commands.Tubes.{watch_tube, ignore_tube, use_tube}

module _ (w : World) (c : ℕ) (h : c < w.fresh_conn) where
  -- For a connection, and tubes whose WatchingCt are the numbers of their watchers, watching a
  -- tube keeps them so, whether or not the connection watches it already.
  pub watch_tube-IsWatched :
      (t : ℕ) → IsWatched w → Yields (λ out. IsWatched out.1) (watch_tube c t w)
  unfolding watch_tube
  watch_tube-IsWatched t k = elim (Bool-cases (Ms.contains (w.conn c).watch.items t)) [
    | inl e ↦ rw (watch_tube, e) (yields k)
    | inr e ↦ rw (watch_tube, e) (watch_append-IsWatched w c h t k)
  ]

  -- For a connection, and tubes whose WatchingCt are the numbers of their watchers, ignoring a
  -- name does not panic and keeps them so, whether or not the connection watches the tube.
  pub ignore_tube-IsWatched :
      (name : Bytes) → IsWatched w → Yields (λ out. IsWatched out.1) (ignore_tube c name w)
  unfolding ignore_tube
  ignore_tube-IsWatched name k =
      elim (Option-cases (find_loop w.tubes.at (w.conn c).watch.items name)) [
        | inl e ↦ rw (ignore_tube, ◌>>=◌, e) (yields k)
        | inr (t, e) ↦ elim (Bool-cases (ltb (length (w.conn c).watch.items) 2)) [
          | inl s ↦ rw (ignore_tube, ◌>>=◌, e, s) (yields k)
          | inr s ↦
              rw (ignore_tube, ◌>>=◌, e, s)
                (after_remove (watch_remove c t w) (watch_remove-IsWatched w c h t k))
        ]
      ]
    where
      after_remove :
          (o : Option (Unit {0} × World))
          → Yields (λ out. IsWatched out.1) o
          → Yields {A = Bool × World}
              (λ out. IsWatched out.1)
              (elim o [ none ↦ none | some (u, w') ↦ some (true, w') ])
      after_remove o (yields p) = yields p

-- Whether a connection uses a tube, as a number.
abbrev pub users : (ℕ → Conn) → ℕ → ℕ → ℕ
users at t b = if same_address (at b).use_tube (some t) then 1 else 0

-- UsingCt is the number of the connections that use the tube, modulo 2 ^ 64.
abbrev pub IsUsed : World → Type 0
IsUsed w = (t : ℕ) → (w.tubes.at t).using_ct ≡ sum (users w.conn t) w.fresh_conn % mod64

abbrev one_at : ℕ → ℕ → ℕ
one_at a t = if t == a then 1 else 0

module _ (at : ℕ → Tube) (a : ℕ) (lt : (at a).using_ct < mod64) where
  abbrev add_user : ℕ → (ℕ → Tube) → ℕ → Tube
  add_user t at = update at t (record (at t) { using_ct = add64 (at t).using_ct 1 })

  less_user :
      (t : ℕ)
      → (update at t (record (at t) { using_ct = sub64 (at t).using_ct 1 }) a).using_ct
        ≡ sub64 (at a).using_ct (one_at a t)
  less_user t = elim (Bool-cases (a == t)) [
    | inl h ↦
        (let q : a ≡ t = ground arith in let r : (t == a) ≡ true = ground arith in rw (h, r, q))
    | inr h ↦ (let r : (t == a) ≡ false = ground arith in rw (h, r) (omega arith))
  ]

  more_user : (t : ℕ) → (add_user t at a).using_ct ≡ add64 (at a).using_ct (one_at a t)
  more_user t = elim (Bool-cases (a == t)) [
    | inl h ↦
        (let q : a ≡ t = ground arith in let r : (t == a) ≡ true = ground arith in rw (h, r, q))
    | inr h ↦ (let r : (t == a) ≡ false = ground arith in rw (h, r) (omega arith))
  ]

one_at-le : (a t : ℕ) → one_at a t ≤ 1
one_at-le a t = ground arith

-- For a connection that uses a tube, and tubes whose UsingCt are the numbers of their users, using
-- a tube, be it the same, does not panic, makes it the connection's, and keeps the numbers so.
pub use_tube-IsUsed :
    (w : World) (c t old : ℕ)
    → c < w.fresh_conn
    → (w.conn c).use_tube ≡ some old
    → IsUsed w
    → Yields (λ out. ((out.1.conn c).use_tube ≡ some t) × IsUsed out.1) (use_tube c t w)
unfolding use_tube
use_tube-IsUsed w c t old h e k =
    simp (use_tube, e)
      (yields (
        rw (==_self c),
        λ a.
            let at = w.tubes.at in
            let conn' = update w.conn c (record (w.conn c) { use_tube = some t }) in
            let at₁ = update at old (record (at old) { using_ct = sub64 (at old).using_ct 1 }) in
            let lt : (at a).using_ct < mod64 = omega (arith, k a) in
            let first = less_user at a lt old in
            let second = more_user at₁ a (omega (arith, first)) t in
            let split = sum-split c (users w.conn a) w.fresh_conn h in
            let split' = sum-split c (users conn' a) w.fresh_conn h in
            let was : users w.conn a c ≡ one_at a old = rw e in
            let is : users conn' a c ≡ one_at a t = rw (==_self c) in
            let same =
              sum_but-ext c (users conn' a) (users w.conn a) w.fresh_conn
                λ b ne. let other : (b == c) ≡ false = ground arith in rw other in
            omega (
              arith,
              k a,
              first,
              second,
              split,
              split',
              was,
              is,
              same,
              one_at-le a old,
              one_at-le a t,
            ),
      ))
