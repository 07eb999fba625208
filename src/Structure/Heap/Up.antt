-- ===== src/Structure/Heap/Up.antt =====
-- container/heap's up puts one item that may be smaller than its parent into its place.
use mathlib.Core.List.Perm
use gostalkd.Prelude.{
  ℕ, zero, suc, ◌+◌, ◌≤◌, ◌<◌, ◌≢◌, refl, Bool, List, ◌∙◌, arith, ltb, ◌==◌, length, Yields, yields,
  Yields-bind, Yields-mono, Yields-test,
}
use gostalkd.Structure.Heap.{Item, parent, up_loop, up}
use gostalkd.Structure.Heap.Order.{
  Ranking, key, IsHeapTo, IsBridged, Sifted, Swapped, less_at_lem, swap_lem,
}

module _ {ℓ} {A : Type ℓ} {less : A → A → Bool} (r : Ranking A less) where
  -- Only the edge above `i` may be out of order.
  pub record UpInv (n : ℕ) (a : List (Item A)) (i : ℕ) : Type 0 where
    pub inside : i < n
    pub within : n ≤ length a
    pub edges : (c : ℕ) → 0 < c → c < n → c ≢ i → key r a (parent c) ≤ key r a c
    pub bridged : IsBridged r n a i

  Swapped-UpInv :
      (n : ℕ) (a b : List (Item A)) (i : ℕ)
      → UpInv n a i
      → 0 < i
      → key r a i < key r a (parent i)
      → Swapped r (parent i) i a b
      → UpInv n b (parent i)
  Swapped-UpInv n a b i v pos below s = record {
    inside = omega (arith, v.inside);
    within = omega (arith, v.within, s.size);
    edges = λ c p q t.
        ground (
          arith,
          s.keys c,
          s.keys (parent c),
          v.edges c,
          v.edges (parent i),
          v.bridged c,
          v.inside,
        );
    bridged = λ c p q t u.
        ground
          (arith, s.keys c, s.keys (parent (parent i)), v.edges c, v.edges (parent i), v.inside);
  }

  -- The rest of a run after a swap of two places below `n` is a run from before it.
  pub Sifted-Swapped :
      {n i j : ℕ} {a b c : List (Item A)}
      → i < n
      → j < n
      → Swapped r i j a b
      → Sifted r n b c
      → Sifted r n a c
  Sifted-Swapped hi hj s t = record {
    ordered = t.ordered;
    same = Perm.trans t.same s.same;
    size = t.size ∙ s.size;
    beyond = λ c h. t.beyond c h ∙ s.others c (omega arith) (omega arith);
    indexed = λ h. t.indexed (s.indexed h);
  }

  pub Sifted-self : (n : ℕ) (a : List (Item A)) → IsHeapTo r n a → Sifted r n a a
  Sifted-self n a h = record {
    ordered = h;
    same = Perm.refl _;
    size = refl;
    beyond = λ c p. refl;
    indexed = λ p. p;
  }

  up_loop_lem :
      (fuel n : ℕ) (a : List (Item A)) (i : ℕ)
      → i < fuel
      → UpInv n a i
      → Yields (Sifted r n a) (up_loop less fuel a i)
  unfolding up_loop
  up_loop_lem zero n a i f v = absurd (omega arith)
  up_loop_lem (suc fuel) n a i f v =
      Yields-test (parent i == i)
        (λ root. yields (Sifted-self n a λ c p q. v.edges c p q (ground arith)))
        (λ inner.
          let pos : 0 < i = ground arith in
          let hi : i < length a = omega (arith, v.inside, v.within) in
          let above : parent i < length a = omega arith in
          rw (less_at_lem r a i (parent i) hi above) (
            Yields-test (ltb (key r a i) (key r a (parent i)))
              (λ below. Yields-bind (swap_lem r a (parent i) i above hi) λ b s.
                Yields-mono
                  (up_loop_lem fuel n b (parent i) (omega arith)
                    (Swapped-UpInv n a b i v pos (ground arith) s))
                  λ c t. Sifted-Swapped (omega (arith, v.inside)) v.inside s t)
              (λ settled. yields (Sifted-self n a λ c p q. ground (arith, v.edges c)))))

  -- With one item too low in the tree, up orders the first `n` items and keeps the others.
  pub up_lem :
      (n : ℕ) (a : List (Item A)) (i : ℕ) → UpInv n a i → Yields (Sifted r n a) (up less a i)
  unfolding up
  up_lem n a i v = up_loop_lem (i + 1) n a i (omega arith) v
