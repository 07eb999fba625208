-- ===== src/Structure/Heap/Correct.antt =====
-- The contract of a priority queue: what Push, Pop, Remove and Take promise.
use mathlib.Core.List.Perm
use gostalkd.Prelude.{
  ℕ, zero, suc, ◌+◌, ◌-◌, ◌≤◌, ◌<◌, ◌≡◌, ◌↔◌, inl, inr, refl, Bool, true, false, List, [], ◌∷◌,
  ◌++◌, none, some, Perm, arith, ◌==◌, if◌then◌else◌, length, length-append, length-take, take,
  get_elem?, get_elem?-take, get_elem?-append, get_elem?-append_last, get_elem?-in, get_elem?-none,
  lt_of_get_elem?, dec_lt, ℕ_discrete, map-append_last-perm, map-take-perm, Yields, yields,
  Yields-bind, Yields-mono, Yields-some,
}
use gostalkd.Structure.Heap.{
  Item, parent, minus_one, up, swap, push, pop, remove, push_last, pop_last, take_at,
}
use gostalkd.Structure.Heap.Order.{
  Ranking, key, values, IsHeap, IsIndexed, Sifted, Swapped, swap_lem,
}
use gostalkd.Structure.Heap.Up.{UpInv, up_lem, Sifted-self}
use gostalkd.Structure.Heap.Down.{Loose, Settled, down_lem, down-Loose}

module _ {ℓ} {A : Type ℓ} {less : A → A → Bool} (r : Ranking A less) where
  -- A queue in order, every item of which knows its index.
  pub record IsValid (items : List (Item A)) : Type ℓ where
    pub ordered : IsHeap r items
    pub indexed : IsIndexed items

  -- What is left of a queue after `x` was taken out of it.
  pub record Removed (items : List (Item A)) (x : A) (out : Item A × List (Item A)) : Type ℓ where
    pub value : out.0.value ≡ x
    pub index : out.0.index ≡ minus_one
    pub same : Perm (values items) (x ∷ values out.1)
    pub valid : IsValid out.1

  module _ (items : List (Item A)) (item : Item A) (v : IsValid items) where
    abbrev grown : List (Item A)
    grown = items ++ record item { index = length items } ∷ []

    grown-size : length grown ≡ length items + 1
    grown-size = length-append items (record item { index = length items } ∷ [])

    grown-last : get_elem? grown (length items) ≡ some (record item { index = length items })
    grown-last = get_elem?-append_last items (record item { index = length items })

    grown-old : (c : ℕ) → c < length items → get_elem? grown c ≡ get_elem? items c
    grown-old c h = get_elem?-append items (record item { index = length items } ∷ []) c h

    grown-UpInv : UpInv r (length grown) grown (length items)
    grown-UpInv = record {
      inside = omega (arith, grown-size);
      within = omega arith;
      edges = λ c p q t. ground (arith, grown-size, v.ordered c, grown-old c, grown-old (parent c));
      bridged = λ c p q t u. absurd (omega (arith, grown-size));
    }

    grown-IsIndexed : IsIndexed grown
    grown-IsIndexed c x e = elim (dec_lt c (length items)) [
      | yes h ↦ v.indexed c x (ground (arith, e, grown-old c h))
      | no h ↦
          let last : c ≡ length items = omega (arith, grown-size, lt_of_get_elem? grown c e) in
          ground (arith, last, grown-last, e)
    ]

    -- Push on a valid queue never panics: it gives a valid queue of the old values and the new one.
    pub push_correct :
        Yields (λ b. IsValid b × Perm (values b) (item.value ∷ values items)) (push less items item)
    unfolding push push_last
    push_correct =
        let place : length grown - 1 ≡ length items = omega (arith, grown-size) in
        rw place (
          Yields-mono (up_lem r (length grown) grown (length items) grown-UpInv) λ b s. (
            record {
              ordered = λ c p q. s.ordered c p (omega (arith, s.size));
              indexed = s.indexed grown-IsIndexed;
            },
            Perm.trans s.same
                (map-append_last-perm Item.value items (record item { index = length items })),
          ))

  -- Taking the last item off, with all the others in order, leaves a valid queue.
  pop_last_lem :
      (n : ℕ) (a b : List (Item A)) (x : Item A)
      → length a ≡ suc n
      → get_elem? a n ≡ some x
      → Sifted r n a b
      → IsIndexed a
      → Yields (Removed a x.value) (pop_last b)
  unfolding pop_last
  pop_last_lem n a b x h e s ix =
      let size : length b ≡ suc n = omega (arith, s.size) in
      let last : get_elem? b n ≡ some x = ground (arith, s.beyond n (omega arith), e) in
      let place : length b - 1 ≡ n = omega arith in
      let nonempty : (length b == 0) ≡ false = ground arith in
      let shorter : length (take n b) ≡ n = omega (arith, length-take n b) in
      rw (nonempty, place, last)
        (yields (record {
          value = refl;
          index = refl;
          same = Perm.trans (Perm.symm s.same) (map-take-perm Item.value n b size last);
          valid = record {
            ordered = λ c p q.
                ground (arith, s.ordered c, get_elem?-take n b c, get_elem?-take n b (parent c));
            indexed = λ c y q.
                let below : c < n = omega (arith, shorter, lt_of_get_elem? (take n b) c q) in
                s.indexed ix c y (ground (arith, q, get_elem?-take n b c below));
          };
        }))

  Removed-perm :
      {a items : List (Item A)} {x : A} {out : Item A × List (Item A)}
      → Perm (values a) (values items)
      → Removed a x out
      → Removed items x out
  Removed-perm p d = record {
    value = d.value;
    index = d.index;
    same = Perm.trans (Perm.symm p) d.same;
    valid = d.valid;
  }

  -- After the swap with the last item only the edges that touch `i` may be out of order.
  Swapped-Loose :
      (n i : ℕ) (items a : List (Item A))
      → IsValid items
      → length items ≡ suc n
      → i < n
      → Swapped r i n items a
      → Loose r n a i
  Swapped-Loose n i items a v size h s = record {
    within = omega (arith, s.size);
    edges = λ c p q t u. ground (arith, v.ordered c, s.keys c, s.keys (parent c));
    bridged = λ c p q t u. ground (arith, v.ordered c, v.ordered i, s.keys c, s.keys (parent i));
  }

  -- Removing index `i` within a valid queue never panics: it returns the item that was there, with
  -- the index -1, and leaves a valid queue of exactly the other values.
  pub remove_correct :
      (items : List (Item A)) (i : ℕ) (x : Item A)
      → IsValid items
      → get_elem? items i ≡ some x
      → Yields (Removed items x.value) (remove less items i)
  unfolding remove
  remove_correct items i x v e =
      let inside = lt_of_get_elem? items i e in
      let n = length items - 1 in
      let size : length items ≡ suc n = omega arith in
      let nonempty : (length items == 0) ≡ false = ground arith in
      rw nonempty (elim (ℕ_discrete n i) [
        | yes same ↦
            let test : (n == i) ≡ true = ground arith in
            let last : get_elem? items n ≡ some x = rw same e in
            rw test (
              pop_last_lem n items items x size last
                (Sifted-self r n items λ c p q. v.ordered c p (omega arith)) v.indexed)
        | no other ↦
            let test : (n == i) ≡ false = ground arith in
            rw test (
              Yields-bind {P = λ b. (a : List (Item A)) × Swapped r i n items a × Sifted r n a b}
                (Yields-bind (swap_lem r items i n inside (omega arith)) λ a s.
                  Yields-bind
                    (down-Loose r n a i (omega arith)
                      (Swapped-Loose n i items a v size (omega arith) s))
                    λ (moved, b) t. finish a s moved b t)
                λ b (a, s, t).
                  Yields-mono
                    (pop_last_lem n a b (record x { index = n }) (omega (arith, s.size)) (s.moved e)
                      t (s.indexed v.indexed))
                    λ out d. Removed-perm s.same d)
      ])
    where
      finish :
          (a : List (Item A))
          → Swapped r i (length items - 1) items a
          → (moved : Bool) (b : List (Item A)) → Settled r (length items - 1) a i (moved, b)
          → Yields
              (λ c.
                (a : List (Item A)) × Swapped r i (length items - 1) items a
                × Sifted r (length items - 1) a c)
              (if moved then some b else up less b i)
      finish a s true b (inl (m, t)) = yields (a, s, t)
      finish a s true b (inr (m, e', u)) = cc
      finish a s false b (inl (m, t)) = cc
      finish a s false b (inr (m, e', u)) = rw e' (Yields-mono (up_lem r _ a i u) λ c t. (a, s, t))

  root_least_below :
      (fuel i : ℕ) (items : List (Item A))
      → IsHeap r items
      → i < fuel
      → i < length items
      → key r items 0 ≤ key r items i
  root_least_below zero i items h f p = absurd (omega arith)
  root_least_below (suc fuel) i items h f p =
      ground (arith, h i, root_least_below fuel (parent i) items h)

  -- No value of the queue is less than `x`.
  abbrev pub IsLeast : List (Item A) → A → Type ℓ
  IsLeast items x = (i : ℕ) (y : Item A) → get_elem? items i ≡ some y → less y.value x ≡ false

  -- The item that Take returns without an index is a least one.
  pub take_at-IsLeast :
      (items : List (Item A)) (x : Item A)
      → IsValid items
      → take_at items 0 ≡ some x
      → IsLeast items x.value
  unfolding take_at
  take_at-IsLeast items x v e i y q = ground (
    arith,
    root_least_below (suc i) i items v.ordered (omega arith) (lt_of_get_elem? items i q),
    r.less-rank y.value x.value,
    q,
    e,
  )

  -- Pop on a valid queue with items never panics: it returns a least item, the one at index 0, and
  -- leaves a valid queue of exactly the other values.
  pub pop_correct :
      (items : List (Item A)) (x : Item A)
      → IsValid items
      → get_elem? items 0 ≡ some x
      → Yields (λ out. Removed items x.value out × IsLeast items out.0.value) (pop less items)
  unfolding pop take_at
  pop_correct items x v e =
      let inside = lt_of_get_elem? items 0 e in
      let n = length items - 1 in
      let size : length items ≡ suc n = omega arith in
      let nonempty : (length items == 0) ≡ false = ground arith in
      rw nonempty (
        Yields-bind (swap_lem r items 0 n inside (omega arith)) λ a s.
          Yields-bind
            (down_lem r n a 0
              (record {
                within = omega (arith, s.size);
                edges = λ c p q t u. ground (arith, v.ordered c, s.keys c, s.keys (parent c));
                bridged = λ c p q t u. absurd (omega arith);
              })
              (λ p. absurd (omega arith)))
            λ (moved, b) t.
              Yields-mono
                (pop_last_lem n a b (record x { index = n }) (omega (arith, s.size)) (s.moved e) t
                  (s.indexed v.indexed))
                λ out d.
                  let d' = Removed-perm s.same d in
                  (d', rw (d'.value) (take_at-IsLeast items x v e)))

  -- Remove on a valid queue panics exactly when the index is out of range.
  pub remove-none :
      (items : List (Item A)) (i : ℕ)
      → IsValid items
      → (remove less items i ≡ none) ↔ (length items ≤ i)
  unfolding remove swap
  remove-none items i v = (
    λ e. elim (dec_lt i (length items)) [
      | yes h ↦
          let (x, ex) = get_elem?-in items i h in
          let (out, eo, d) = Yields-some (remove_correct items i x v ex) in cc
      | no h ↦ omega arith
    ],
    λ h. ground (arith, get_elem?-none items i h),
  )
