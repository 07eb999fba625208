-- ===== src/Core/Links/Remove.antt =====
-- JobListRemove takes a job out of whatever list it is in.
use mathlib.Core.Path.{subst}
use gostalkd.Prelude.{
  ℕ, ◌≡◌, ◌≢◌, sym, ◌∙◌, List, [], ◌∷◌, ◌++◌, some, none, arith, ◌==◌, if◌then◌else◌,
}
use gostalkd.Core.Links.{Links, list_remove}
use gostalkd.Core.Links.Rings.{
  Chain, Avoids, Distinct, Ring, IsAlone, Distinct-drop, Distinct-middle, Avoids-split,
}

Chain-tail :
    (l : Links) (a : ℕ) (xs : List ℕ) (j : ℕ) (ys : List ℕ) (b : ℕ)
    → Chain l a (xs ++ j ∷ ys) b
    → Chain l j ys b
Chain-tail l a [] j ys b h = h.2
Chain-tail l a (x ∷ xs) j ys b h = Chain-tail l x xs j ys b h.2

Chain-first :
    (l : Links) (j : ℕ) (ys : List ℕ) (b c : ℕ)
    → Chain l j ys b
    → Avoids c ys
    → b ≢ c
    → l.next j ≢ c
Chain-first l j [] b c h v w = λ e. w (sym h.0 ∙ e)
Chain-first l j (y ∷ ys) b c h v w = λ e. v.0 (sym h.0 ∙ e)

Chain-before :
    (l : Links) (a : ℕ) (xs : List ℕ) (j : ℕ) (ys : List ℕ) (b c : ℕ)
    → Chain l a (xs ++ j ∷ ys) b
    → Avoids c (a ∷ xs)
    → l.prev j ≢ c
Chain-before l a [] j ys b c h v = λ e. v.0 (sym h.1 ∙ e)
Chain-before l a (x ∷ xs) j ys b c h v = Chain-before l x xs j ys b c h.2 v.1

-- The links after the removal.
abbrev unlinked : Links → ℕ → Links
unlinked l j = (list_remove l (some j)).1

module _ (l : Links) (j : ℕ) (here : l.prev j ≢ j) (there : l.next j ≢ j) where
  remove-next :
      (x : ℕ)
      → (unlinked l j).next x ≡ (if x == j then j else if x == l.prev j then l.next j else l.next x)
  unfolding list_remove
  remove-next x = ground (arith, here, there)

  remove-prev :
      (x : ℕ)
      → (unlinked l j).prev x ≡ (if x == j then j else if x == l.next j then l.prev j else l.prev x)
  unfolding list_remove
  remove-prev x = ground (arith, here, there)

  remove-result : (list_remove l (some j)).0 ≡ some j
  unfolding list_remove
  remove-result = ground (arith, here, there)

  -- Links away from the neighbours of `j` stay.
  remove-frame :
      (a : ℕ) (zs : List ℕ) (b : ℕ)
      → Chain l a zs b
      → Avoids (l.prev j) (a ∷ zs)
      → Avoids j (a ∷ zs)
      → Avoids (l.next j) zs
      → b ≢ l.next j
      → b ≢ j
      → Chain (unlinked l j) a zs b
  remove-frame a [] b h p q n bn bj =
      (ground (arith, remove-next a, p.0, q.0, h.0), ground (arith, remove-prev b, bn, bj, h.1))
  remove-frame a (z ∷ zs) b h p q n bn bj = (
    ground (arith, remove-next a, p.0, q.0, h.0),
    ground (arith, remove-prev z, n.0, q.1.0, h.1),
    remove-frame z zs b h.2 p.1 q.1 n.1 bn bj,
  )

  remove-here :
      (a : ℕ) (ys : List ℕ) (b : ℕ)
      → Chain l a (j ∷ ys) b
      → Distinct (a ∷ j ∷ ys)
      → Avoids b (j ∷ ys)
      → Chain (unlinked l j) a ys b
  remove-here a [] b h d v = (
    ground (arith, remove-next a, d.0.0, h.0, h.1, h.2.0),
    ground (arith, remove-prev b, v.0, h.0, h.1, h.2.0),
  )
  remove-here a (y ∷ ys) b h d v =
      let p : l.prev j ≡ a = h.1 in
      let n : l.next j ≡ y = h.2.0 in
      (
        ground (arith, remove-next a, d.0.0, n, p),
        ground (arith, remove-prev y, d.1.0.0, n, p),
        remove-frame y ys b h.2.2 (subst (λ t. Avoids t (y ∷ ys)) (sym p) d.0.1) d.1.0
            (subst (λ t. Avoids t ys) (sym n) d.1.1.0) (rw n (λ e. v.1.0 (sym e)))
            (λ e. v.0 (sym e)),
      )

  remove-Chain :
      (a : ℕ) (xs ys : List ℕ) (b : ℕ)
      → Chain l a (xs ++ j ∷ ys) b
      → Distinct (a ∷ (xs ++ j ∷ ys))
      → Avoids b (xs ++ j ∷ ys)
      → Chain (unlinked l j) a (xs ++ ys) b
  remove-Chain a [] ys b h d v = remove-here a ys b h d v
  remove-Chain a (x ∷ xs) ys b h d v =
      let off_a = Avoids-split a xs (j ∷ ys) d.0.1 in
      let off_x = Avoids-split x xs (j ∷ ys) d.1.0 in
      let p : l.prev j ≢ a = Chain-before l x xs j ys b a h.2 (d.0.0, off_a.0) in
      let n : l.next j ≢ x =
        Chain-first l j ys b x (Chain-tail l x xs j ys b h.2) off_x.1.1 (λ e. v.0 (sym e)) in
      (
        ground (arith, remove-next a, p, off_a.1.0, h.0),
        ground (arith, remove-prev x, n, off_x.1.0, h.1),
        remove-Chain x xs ys b h.2 d.1 v.1,
      )

  remove-IsAlone : IsAlone (unlinked l j) j
  remove-IsAlone = record {
    no_next = ground (arith, remove-next j);
    no_prev = ground (arith, remove-prev j);
  }

-- Removing a job of a list returns it, leaves it in no list, and leaves the others of its list
-- in their order.
pub list_remove-Ring :
    (l : Links) (head : ℕ) (xs : List ℕ) (j : ℕ) (ys : List ℕ)
    → Ring l head (xs ++ j ∷ ys)
    → ((list_remove l (some j)).0 ≡ some j)
      × Ring (list_remove l (some j)).1 head (xs ++ ys)
      × IsAlone (list_remove l (some j)).1 j
list_remove-Ring l head xs j ys r =
    let off_head = Avoids-split head xs (j ∷ ys) r.distinct.0 in
    let (not_before, off_j) = Distinct-middle xs j ys r.distinct.1 in
    let here : l.prev j ≢ j =
      Chain-before l head xs j ys head j r.chain ((λ e. off_head.1.0 (sym e)), not_before) in
    let there : l.next j ≢ j =
      Chain-first l j ys head j (Chain-tail l head xs j ys head r.chain) off_j
        (λ e. off_head.1.0 (sym e)) in
    (
      remove-result l j here there,
      record {
        chain = remove-Chain l j here there head xs ys head r.chain r.distinct r.distinct.0;
        distinct = Distinct-drop (head ∷ xs) j ys r.distinct;
      },
      remove-IsAlone l j here there,
    )

-- Removing a job that is in no list gives nil and changes nothing.
pub list_remove-alone : (l : Links) (j : ℕ) → IsAlone l j → list_remove l (some j) ≡ (none, l)
unfolding list_remove
list_remove-alone l j a = ground (arith, a.no_next, a.no_prev)
