-- ===== src/Structure/Heap/Order.antt =====
-- The heap order, and what one swap does to a queue.
use mathlib.Core.List.Perm
use gostalkd.Prelude.{
  ℕ, ◌≤◌, ◌<◌, ◌≡◌, ◌≢◌, Bool, List, map, Option, none, some, Perm, arith, ltb, ◌==◌, if◌then◌else◌,
  length, length-set, get_elem?, get_elem?-set, get_elem?-in, set, map-set-perm, Yields, yields,
}
use gostalkd.Structure.Heap.{Item, parent, less_at, swap}

-- The less function of a queue orders the values by a number.
pub record Ranking {ℓ} (A : Type ℓ) (less : A → A → Bool) : Type ℓ where
  pub rank : A → ℕ
  pub less-rank : (a b : A) → less a b ≡ ltb (rank a) (rank b)

module _ {ℓ} {A : Type ℓ} where
  abbrev pub values : List (Item A) → List A
  values items = map Item.value items

  -- Every item knows its place.
  abbrev pub IsIndexed : List (Item A) → Type ℓ
  IsIndexed items = (c : ℕ) (x : Item A) → get_elem? items c ≡ some x → x.index ≡ c

module _ {ℓ} {A : Type ℓ} {less : A → A → Bool} (r : Ranking A less) where
  abbrev pub rank_of : Option (Item A) → ℕ
  rank_of none = 0
  rank_of (some x) = r.rank x.value

  abbrev pub key : List (Item A) → ℕ → ℕ
  key items i = rank_of (get_elem? items i)

  -- Among the first `n` items, none has a larger parent.
  abbrev pub IsHeapTo : ℕ → List (Item A) → Type 0
  IsHeapTo n items = (c : ℕ) → 0 < c → c < n → key items (parent c) ≤ key items c

  abbrev pub IsHeap : List (Item A) → Type 0
  IsHeap items = IsHeapTo (length items) items

  -- Around `i` the order holds between its parent and its children.
  abbrev pub IsBridged : ℕ → List (Item A) → ℕ → Type 0
  IsBridged n items i =
      (c : ℕ) → 0 < c → c < n → parent c ≡ i → 0 < i → key items (parent i) ≤ key items c

  -- `b` holds the values of `a`, is ordered in its first `n` places and is `a` beyond.
  pub record Sifted (n : ℕ) (a b : List (Item A)) : Type ℓ where
    pub ordered : IsHeapTo n b
    pub same : Perm (values b) (values a)
    pub size : length b ≡ length a
    pub beyond : (c : ℕ) → n ≤ c → get_elem? b c ≡ get_elem? a c
    pub indexed : IsIndexed a → IsIndexed b

  -- What Swap does, for places in range.
  pub record Swapped (i j : ℕ) (a b : List (Item A)) : Type ℓ where
    pub keys : (c : ℕ) → key b c ≡ (if j == c then key a i else if i == c then key a j else key a c)
    pub same : Perm (values b) (values a)
    pub size : length b ≡ length a
    pub others : (c : ℕ) → c ≢ i → c ≢ j → get_elem? b c ≡ get_elem? a c
    pub moved :
        {x : Item A} → get_elem? a i ≡ some x → get_elem? b j ≡ some (record x { index = j })
    pub indexed : IsIndexed a → IsIndexed b

  module _ (a : List (Item A)) (i j : ℕ) (hi : i < length a) (hj : j < length a) where
    pub less_at_lem : less_at less a i j ≡ some (ltb (key a i) (key a j))
    unfolding less_at
    less_at_lem =
        let (x, ex) = get_elem?-in a i hi in
        let (y, ey) = get_elem?-in a j hj in rw (ex, ey, r.less-rank x.value y.value)

    module _ {x y : Item A} (ex : get_elem? a i ≡ some x) (ey : get_elem? a j ≡ some y) where
      abbrev half : List (Item A)
      half = set a i (record y { index = i })

      abbrev whole : List (Item A)
      whole = set half j (record x { index = j })

      half-size : length half ≡ length a
      half-size = length-set a i (record y { index = i })

      half-at :
          (c : ℕ)
          → get_elem? half c ≡ (if i == c then some (record y { index = i }) else get_elem? a c)
      half-at c = get_elem?-set a i c (record y { index = i }) hi

      whole-at :
          (c : ℕ)
          → get_elem? whole c ≡ (if j == c then some (record x { index = j }) else get_elem? half c)
      whole-at c = get_elem?-set half j c (record x { index = j }) (omega (arith, half-size))

      half-same : (z : Item A) → get_elem? half j ≡ some z → z.value ≡ y.value
      half-same z e = ground (arith, half-at j, ey)

      whole-same : Perm (values whole) (values a)
      whole-same =
          let (z, ez) = get_elem?-in half j (omega (arith, half-size)) in
          let second = map-set-perm Item.value half j (record x { index = j }) ez in
          let first = map-set-perm Item.value a i (record y { index = i }) ex in
          Perm.cons_inv (Perm.trans (rw (half-same z ez) at second) first)

      whole-Swapped : Swapped i j a whole
      whole-Swapped = record {
        keys = λ c. ground (arith, whole-at c, half-at c, ex, ey);
        same = whole-same;
        size = omega (arith, half-size, length-set half j (record x { index = j }));
        others = λ c p q. ground (arith, whole-at c, half-at c);
        moved = λ {x = z} e. ground (arith, whole-at j, ex, e);
        indexed = λ h c z e. ground (arith, whole-at c, half-at c, e, h c z);
      }

    pub swap_lem : Yields (Swapped i j a) (swap a i j)
    unfolding swap
    swap_lem =
        let (x, ex) = get_elem?-in a i hi in
        let (y, ey) = get_elem?-in a j hj in rw (ex, ey) (yields (whole-Swapped ex ey))
