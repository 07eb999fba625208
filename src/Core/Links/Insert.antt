-- ===== src/Core/Links/Insert.antt =====
-- JobListInsert puts a job at the end of a list.
use gostalkd.Prelude.{ℕ, ◌≡◌, ◌≢◌, sym, false, List, [], ◌∷◌, ◌++◌, arith, ◌==◌, if◌then◌else◌}
use gostalkd.Core.Links.{Links, list_insert, list_empty}
use gostalkd.Core.Links.Rings.{Chain, Avoids, Distinct, Ring, IsAlone, Distinct-snoc, Chain-last}

module _ (l : Links) (head j : ℕ) (alone : IsAlone l j) (away : j ≢ head) where
  insert-next :
      (x : ℕ)
      → l.prev head ≢ j
      → (list_insert l head j).next x
        ≡ (if x == l.prev head then j else if x == j then head else l.next x)
  unfolding list_insert
  insert-next x last = ground (arith, alone.no_next, alone.no_prev)

  insert-prev :
      (x : ℕ)
      → (list_insert l head j).prev x
        ≡ (if x == head then j else if x == j then l.prev head else l.prev x)
  unfolding list_insert
  insert-prev x = ground (arith, alone.no_next, alone.no_prev)

  insert-Chain :
      (a : ℕ) (xs : List ℕ)
      → l.prev head ≢ j
      → Chain l a xs head
      → Avoids head xs
      → Avoids j (a ∷ xs)
      → Distinct (a ∷ xs)
      → Chain (list_insert l head j) a (xs ++ j ∷ []) head
  insert-Chain a [] last h v w d = (
    ground (arith, insert-next a last, h.1),
    ground (arith, insert-prev j, h.1),
    (ground (arith, insert-next j last, last), ground (arith, insert-prev head)),
  )
  insert-Chain a (x ∷ xs) last h v w d =
      let beyond : l.prev head ≢ a = Chain-last l x xs head a h.2 d.0 in
      (
        ground (arith, insert-next a last, beyond, w.0, h.0),
        ground (arith, insert-prev x, v.0, w.1.0, h.1),
        insert-Chain x xs last h.2 v.1 w.1 d.1,
      )

-- Inserting into the list of `head` a job that is in no list, and is not the head itself, puts
-- it at the end of that list.
pub list_insert-Ring :
    (l : Links) (head : ℕ) (xs : List ℕ) (j : ℕ)
    → Ring l head xs
    → IsAlone l j
    → Avoids j (head ∷ xs)
    → Ring (list_insert l head j) head (xs ++ j ∷ [])
list_insert-Ring l head xs j r alone v =
    let away : j ≢ head = λ e. v.0 (sym e) in
    let last : l.prev head ≢ j = Chain-last l head xs head j r.chain v in
    record {
      chain = insert-Chain l head j alone away head xs last r.chain r.distinct.0 v r.distinct;
      distinct = Distinct-snoc (head ∷ xs) j r.distinct v;
    }

-- Inserting a job that is in a list already does nothing.
pub list_insert-linked :
    (l : Links) (head j : ℕ) → list_empty l j ≡ false → list_insert l head j ≡ l
unfolding list_insert
list_insert-linked l head j h = rw h
