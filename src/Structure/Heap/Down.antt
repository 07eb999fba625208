-- ===== src/Structure/Heap/Down.antt =====
-- container/heap's down puts one item that may be larger than its children into its place.
use gostalkd.Prelude.{
  ℕ, zero, suc, ◌+◌, ◌-◌, ◌*◌, ◌≤◌, ◌<◌, ◌≡◌, ◌≢◌, ◌⊎◌, inl, inr, refl, Bool, true, false, List,
  some, arith, ltb, leb, if◌then◌else◌, length, Yields, yields, Yields-bind, Yields-mono,
  Yields-test,
}
use gostalkd.Structure.Heap.{Item, parent, child_of, down_loop, down}
use gostalkd.Structure.Heap.Order.{Ranking, key, IsBridged, Sifted, Swapped, less_at_lem, swap_lem}
use gostalkd.Structure.Heap.Up.{UpInv, Sifted-Swapped, Sifted-self}

module _ {ℓ} {A : Type ℓ} {less : A → A → Bool} (r : Ranking A less) where
  -- The edges that touch `i` may be out of order.
  pub record Loose (n : ℕ) (a : List (Item A)) (i : ℕ) : Type 0 where
    pub within : n ≤ length a
    pub edges : (c : ℕ) → 0 < c → c < n → parent c ≢ i → c ≢ i → key r a (parent c) ≤ key r a c
    pub bridged : IsBridged r n a i

  -- The edge above `i` is in order.
  abbrev pub IsBelow : List (Item A) → ℕ → Type 0
  IsBelow a i = 0 < i → key r a (parent i) ≤ key r a i

  -- `m` is the child of `i` that no other child is below.
  record IsChild (n : ℕ) (a : List (Item A)) (i m : ℕ) : Type 0 where
    inside : m < n
    child : (m ≡ 2 * i + 1) ⊎ (m ≡ 2 * i + 2)
    least : (c : ℕ) → 0 < c → c < n → parent c ≡ i → key r a m ≤ key r a c

  child_of-IsChild :
      (n : ℕ) (a : List (Item A)) (i : ℕ)
      → n ≤ length a
      → 2 * i + 1 < n
      → Yields (IsChild n a i) (child_of less a (2 * i + 1) n)
  unfolding child_of
  child_of-IsChild n a i w h =
      Yields-test (ltb (2 * i + 1 + 1) n)
        (λ two.
          rw (less_at_lem r a (2 * i + 1 + 1) (2 * i + 1) (ground arith) (omega arith))
            (pick (ltb (key r a (2 * i + 1 + 1)) (key r a (2 * i + 1))) refl (ground arith)))
        (λ one. yields (record {
          inside = h;
          child = inl refl;
          least = λ c p q e. ground (arith, only c p q e (ground arith));
        }))
    where
      only : (c : ℕ) → 0 < c → c < n → parent c ≡ i → n ≤ 2 * i + 1 + 1 → c ≡ 2 * i + 1
      only c p q e o = omega arith

      both : (c : ℕ) → 0 < c → parent c ≡ i → (c ≡ 2 * i + 1) ⊎ (c ≡ 2 * i + 1 + 1)
      both c p e = grind arith

      pick :
          (b : Bool)
          → ltb (key r a (2 * i + 1 + 1)) (key r a (2 * i + 1)) ≡ b
          → 2 * i + 1 + 1 < n
          → Yields (IsChild n a i) (some (if b then 2 * i + 1 + 1 else 2 * i + 1))
      pick true e o = yields (record {
        inside = o;
        child = inr (omega arith);
        least = λ c p q t. ground (arith, both c p t);
      })
      pick false e o =
          yields
            (record { inside = h; child = inl refl; least = λ c p q t. ground (arith, both c p t) })

  Swapped-Loose :
      (n : ℕ) (a b : List (Item A)) (i m : ℕ)
      → Loose n a i
      → IsChild n a i m
      → key r a m < key r a i
      → Swapped r i m a b
      → Loose n b m × IsBelow b m
  Swapped-Loose n a b i m v s below t = (
    record {
      within = omega (arith, v.within, t.size);
      edges = λ c p q u w. ground (
        arith,
        s.child,
        t.keys c,
        t.keys (parent c),
        v.edges c,
        v.bridged m,
        s.least c,
        s.inside,
      );
      bridged = λ c p q u w. ground (arith, s.child, t.keys c, t.keys (parent m), v.edges c);
    },
    λ p. ground (arith, s.child, t.keys m, t.keys (parent m)),
  )

  -- What the loop of down returns: the last index, and the items in order.
  abbrev Sunk : ℕ → List (Item A) → ℕ → ℕ × List (Item A) → Type ℓ
  Sunk n a i (j, b) = (i ≤ j) × Sifted r n a b

  down_loop_lem :
      (fuel n : ℕ) (a : List (Item A)) (i : ℕ)
      → n - i < fuel
      → Loose n a i
      → IsBelow a i
      → Yields (Sunk n a i) (down_loop less fuel a i n)
  unfolding down_loop
  down_loop_lem zero n a i f v above = absurd (omega arith)
  down_loop_lem (suc fuel) n a i f v above =
      Yields-test (leb n (2 * i + 1))
        (λ leaf. yields (omega arith, Sifted-self r n a λ c p q. ground (arith, v.edges c)))
        (λ inner. Yields-bind (child_of-IsChild n a i v.within (ground arith)) λ m s.
          let hi : i < length a = omega (arith, s.child, s.inside, v.within) in
          let hm : m < length a = omega (arith, s.inside, v.within) in
          rw (less_at_lem r a m i hm hi) (
            Yields-test (ltb (key r a m) (key r a i))
              (λ below. Yields-bind (swap_lem r a i m hi hm) λ b t.
                let (v', above') = Swapped-Loose n a b i m v s (ground arith) t in
                Yields-mono (down_loop_lem fuel n b m (omega (arith, s.child, s.inside)) v' above')
                  λ (j, c) u. (
                    omega (arith, s.child, u.0),
                    Sifted-Swapped r (omega (arith, s.child, s.inside)) s.inside t u.1,
                  ))
              (λ settled.
                yields
                  (omega arith, Sifted-self r n a λ c p q. ground (arith, v.edges c, s.least c)))))

  -- With one item too high in the tree, down orders the first `n` items and keeps the others.
  pub down_lem :
      (n : ℕ) (a : List (Item A)) (i : ℕ)
      → Loose n a i
      → IsBelow a i
      → Yields (λ (moved, b). Sifted r n a b) (down less a i n)
  unfolding down
  down_lem n a i v above =
      Yields-bind (down_loop_lem (n + 1) n a i (omega arith) v above) λ (j, b) s. yields s.1

  -- One item may be too high or too low: if down does not move it, nothing has changed and up
  -- has one edge to repair.
  abbrev pub Settled : ℕ → List (Item A) → ℕ → Bool × List (Item A) → Type ℓ
  Settled n a i (moved, b) =
      (moved ≡ true) × Sifted r n a b ⊎ (moved ≡ false) × (b ≡ a) × UpInv r n a i

  down_loop-Loose :
      (fuel n : ℕ) (a : List (Item A)) (i : ℕ)
      → n - i < fuel
      → i < n
      → Loose n a i
      → Yields (λ (j, b). Settled n a i (ltb i j, b)) (down_loop less fuel a i n)
  unfolding down_loop
  down_loop-Loose zero n a i f hn v = absurd (omega arith)
  down_loop-Loose (suc fuel) n a i f hn v =
      Yields-test (leb n (2 * i + 1))
        (λ leaf. yields (
          inr (
            ground arith,
            refl,
            record {
              inside = hn;
              within = v.within;
              edges = λ c p q t. ground (arith, v.edges c);
              bridged = v.bridged;
            },
          )))
        (λ inner. Yields-bind (child_of-IsChild n a i v.within (ground arith)) λ m s.
          let hi : i < length a = omega (arith, s.child, s.inside, v.within) in
          let hm : m < length a = omega (arith, s.inside, v.within) in
          rw (less_at_lem r a m i hm hi) (
            Yields-test (ltb (key r a m) (key r a i))
              (λ below. Yields-bind (swap_lem r a i m hi hm) λ b t.
                let (v', above') = Swapped-Loose n a b i m v s (ground arith) t in
                Yields-mono (down_loop_lem fuel n b m (omega (arith, s.child, s.inside)) v' above')
                  λ (j, c) u. inl (
                    ground (arith, s.child, u.0),
                    Sifted-Swapped r (omega (arith, s.child, s.inside)) s.inside t u.1,
                  ))
              (λ settled. yields (
                inr (
                  ground arith,
                  refl,
                  record {
                    inside = hn;
                    within = v.within;
                    edges = λ c p q t. ground (arith, v.edges c, s.least c);
                    bridged = v.bridged;
                  },
                )))))

  pub down-Loose :
      (n : ℕ) (a : List (Item A)) (i : ℕ)
      → i < n
      → Loose n a i
      → Yields (Settled n a i) (down less a i n)
  unfolding down
  down-Loose n a i hn v =
      Yields-bind (down_loop-Loose (n + 1) n a i (omega arith) hn v) λ (j, b) s. yields s
