-- ===== src/Net/Tallied.antt =====
-- The numbers of users and watchers of the tubes (UsingCt and WatchingCt of model/tube.go) through
-- all the commands of net/prot.go.
pub mod Made
pub mod Tubes
pub mod Commands
mod Tests
use gostalkd.Prelude.{
  ℕ, zero, suc, ◌+◌, ◌%◌, ◌≤◌, ◌<◌, ◌≡◌, refl, ap, ◌∙◌, sym, List, [], ◌∷◌, ◌++◌, Option, none,
  some, mod64, length, take, drop, get_elem?, arith,
}
use gostalkd.Structure.Ms.{Ms}
use gostalkd.Machine.{World, Conn}
use gostalkd.Machine.Frame.{Quiet, line, numbers}
use gostalkd.Net.Conn.{address_eq}
use gostalkd.Net.Watch.Counts.{IsWatched, watches, sum}
use gostalkd.Net.Commands.Tubes.Counts.{IsUsed, users}
use gostalkd.Structure.Ms.Counted.{count}

-- The addresses are below a bound.
abbrev pub Below : ℕ → List ℕ → Type 0
Below n [] = Unit {0}
Below n (x ∷ xs) = (x < n) × Below n xs

pub Below-mono : (m n : ℕ) (xs : List ℕ) → m ≤ n → Below m xs → Below n xs
Below-mono m n [] h b = tt
Below-mono m n (x ∷ xs) h b = (omega (arith, b.0), Below-mono m n xs h b.1)

pub Below-append : (n : ℕ) (xs ys : List ℕ) → Below n xs → Below n ys → Below n (xs ++ ys)
Below-append n [] ys b d = d
Below-append n (x ∷ xs) ys b d = (b.0, Below-append n xs ys b.1 d)

pub Below-take : (n i : ℕ) (xs : List ℕ) → Below n xs → Below n (take i xs)
Below-take n zero xs b = tt
Below-take n (suc i) [] b = tt
Below-take n (suc i) (x ∷ xs) b = (b.0, Below-take n i xs b.1)

pub Below-drop : (n i : ℕ) (xs : List ℕ) → Below n xs → Below n (drop i xs)
Below-drop n zero xs b = b
Below-drop n (suc i) [] b = tt
Below-drop n (suc i) (x ∷ xs) b = Below-drop n i xs b.1

pub Below-get_elem? : (n i x : ℕ) (xs : List ℕ) → Below n xs → get_elem? xs i ≡ some x → x < n
Below-get_elem? n i x [] b e = absurd (cc)
Below-get_elem? n zero x (y ∷ xs) b e = ground (arith, b.0)
Below-get_elem? n (suc i) x (y ∷ xs) b e = Below-get_elem? n i x xs b.1 e

-- UsingCt and WatchingCt of each tube are the numbers of the connections that use it and of the
-- times that they watch it, and what is known and used is a tube that has been made.
pub record IsTallied (w : World) : Type 0 where
  pub used : IsUsed w
  pub watched : IsWatched w
  pub blank : (t : ℕ) → w.tubes.fresh ≤ t → numbers (w.tubes.at t) ≡ (0, 0)
  pub known : Below w.tubes.fresh w.tubes.tubes.items
  pub using : (b t : ℕ) → (w.conn b).use_tube ≡ some t → t < w.tubes.fresh
  pub watching : (b : ℕ) → Below w.tubes.fresh (w.conn b).watch.items

sum-ext : (f g : ℕ → ℕ) (n : ℕ) → ((b : ℕ) → f b ≡ g b) → sum f n ≡ sum g n
sum-ext f g zero h = refl
sum-ext f g (suc n) h = omega (arith, h n, sum-ext f g n h)

module _ (v w : World) (fresh : w.fresh_conn ≡ v.fresh_conn) where
  pub IsUsed-same :
      ((t : ℕ) → (w.tubes.at t).using_ct ≡ (v.tubes.at t).using_ct)
      → ((b : ℕ) → (w.conn b).use_tube ≡ (v.conn b).use_tube)
      → IsUsed v
      → IsUsed w
  IsUsed-same ct eq h t =
      let s = sum-ext (users w.conn t) (users v.conn t) v.fresh_conn λ b. let e = eq b in rw e in
      rw fresh (omega (arith, ct t, h t, s))

  pub IsWatched-same :
      ((t : ℕ) → (w.tubes.at t).watching_ct ≡ (v.tubes.at t).watching_ct)
      → ((b : ℕ) → (w.conn b).watch.items ≡ (v.conn b).watch.items)
      → IsWatched v
      → IsWatched w
  IsWatched-same ct eq h t =
      let s = sum-ext (watches w.conn t) (watches v.conn t) v.fresh_conn λ b. ap (count t) (eq b) in
      rw fresh (omega (arith, ct t, h t, s))

pub Below-same : {m n : ℕ} {xs ys : List ℕ} → m ≡ n → xs ≡ ys → Below m xs → Below n ys
Below-same p q b = rw (← p, ← q) b

-- What is quiet keeps the tally.
pub Quiet-IsTallied : (v w : World) → Quiet v w → IsTallied v → IsTallied w
Quiet-IsTallied v w q h = record {
  used =
      IsUsed-same v w q.fresh_conn (λ t. ap (λ p. p.0) (q.counts t))
        (λ b. ap (λ p. p.3) (q.lines b)) h.used;
  watched =
      IsWatched-same v w q.fresh_conn (λ t. ap (λ p. p.1) (q.counts t))
        (λ b. ap (λ p. p.4.items) (q.lines b)) h.watched;
  blank = λ t le. let e = q.fresh_tube in q.counts t ∙ h.blank t (omega (arith, e));
  known = Below-same (sym q.fresh_tube) (ap (λ (m : Ms ℕ). m.items) (sym q.known)) h.known;
  using = λ b t e.
      let f = q.fresh_tube in omega (arith, f, h.using b t (sym (ap (λ p. p.3) (q.lines b)) ∙ e));
  watching =
      λ b. Below-same (sym q.fresh_tube) (ap (λ p. p.4.items) (sym (q.lines b))) (h.watching b);
}
