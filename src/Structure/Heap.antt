-- ===== src/Structure/Heap.antt =====
-- structure/heap.go: a priority queue over Go's container/heap, whose up, down, Push, Pop and
-- Remove are written out. `less` is the lessFn of the queue, on the values of two items; every
-- lessFn of the program reads the values only. `none` is a panic: an index out of range.
-- The functions that change a queue return the new list of items.
pub mod Order
pub mod Up
pub mod Down
pub mod Correct
mod Tests
use gostalkd.Prelude.{
  ℕ, zero, suc, ◌+◌, ◌-◌, ◌*◌, ◌/◌, ◌^◌, ◌<◌, ◌≤◌, ◌≡◌, Bool, not, true, false, List, [], ◌∷◌, ◌++◌,
  map, Option, none, some, ltb, leb, ◌==◌, if◌then◌else◌, length, get_elem?, set, take, ◌>>=◌,
}

pub record Item {ℓ} (A : Type ℓ) : Type ℓ where
  pub value : A
  -- an `int`, as its bit pattern
  pub index : ℕ

-- -1 as an `int`
abbrev pub minus_one : ℕ
minus_one = 2 ^ 64 - 1

module _ {ℓ} {A : Type ℓ} where
  -- Item.Index
  unfoldable pub index_of : Item A → ℕ
  index_of item = item.index

  -- NewHeap; heap.Init does nothing to no items
  unfoldable pub new_heap : List (Item A)
  new_heap = []

  -- Heap.Take with an index; without one it takes index 0
  unfoldable pub take_at : List (Item A) → ℕ → Option (Item A)
  take_at items i = get_elem? items i

  -- mHeap.Swap
  unfoldable pub swap : List (Item A) → ℕ → ℕ → Option (List (Item A))
  swap items i j = do
    x ← get_elem? items i
    y ← get_elem? items j
    some (set (set items i (record y { index = i })) j (record x { index = j }))

  -- mHeap.Push
  unfoldable pub push_last : List (Item A) → Item A → List (Item A)
  push_last items item = items ++ record item { index = length items } ∷ []

  -- mHeap.Pop
  unfoldable pub pop_last : List (Item A) → Option (Item A × List (Item A))
  pop_last items = do
    item ← if length items == 0 then none else get_elem? items (length items - 1)
    some (record item { index = minus_one }, take (length items - 1) items)

  -- Heap.Set: the new items, and the call of setPos if it is made; `has_set_pos` says whether
  -- SetPosFn was called before
  unfoldable pub set_value : Bool → List (Item A) → ℕ → Item A → List (Item A) × Option (A × ℕ)
  set_value has_set_pos items k i =
      if not has_set_pos then (items, none) else elim (get_elem? items k) [
        | none ↦ (items, none)
        | some x ↦ (set items k (record x { value = i.value }), some (i.value, k))
      ]

abbrev pub parent : ℕ → ℕ
parent c = (c - 1) / 2

module _ {ℓ} {A : Type ℓ} (less : A → A → Bool) where
  -- mHeap.Less
  unfoldable pub less_at : List (Item A) → ℕ → ℕ → Option Bool
  less_at items i j = do x ← get_elem? items i; y ← get_elem? items j; some (less x.value y.value)

  -- the loop of container/heap's up
  unfoldable pub up_loop : ℕ → List (Item A) → ℕ → Option (List (Item A))
  up_loop zero items j = none
  up_loop (suc fuel) items j =
      let rise = swap items (parent j) j >>= λ b. up_loop fuel b (parent j) in
      let step = less_at items j (parent j) >>= λ below. if below then rise else some items in
      if parent j == j then some items else step

  unfoldable pub up : List (Item A) → ℕ → Option (List (Item A))
  unfolding up_loop less_at swap
  up items j = up_loop (j + 1) items j

  -- the index of the child to compare with in down, whose left child is `j1`
  unfoldable pub child_of : List (Item A) → ℕ → ℕ → Option ℕ
  child_of items j1 n =
      if ltb (j1 + 1) n
      then (do below ← less_at items (j1 + 1) j1; some (if below then j1 + 1 else j1))
      else some j1

  -- the loop of container/heap's down, which returns the last index as well
  unfoldable pub down_loop : ℕ → List (Item A) → ℕ → ℕ → Option (ℕ × List (Item A))
  down_loop zero items i n = none
  down_loop (suc fuel) items i n =
      let step : Option (ℕ × List (Item A)) = do
        j ← child_of items (2 * i + 1) n
        below ← less_at items j i
        let sink = swap items i j >>= λ b. down_loop fuel b j n
        if below then sink else some (i, items)
      in if leb n (2 * i + 1) then some (i, items) else step

  -- the result says whether the item moved
  unfoldable pub down : List (Item A) → ℕ → ℕ → Option (Bool × List (Item A))
  unfolding down_loop child_of less_at swap
  down items i n = do (j, b) ← down_loop (n + 1) items i n; some (ltb i j, b)

  -- Heap.Push over heap.Push; it always returns true
  unfoldable pub push : List (Item A) → Item A → Option (List (Item A))
  unfolding push_last up
  push items item = let grown = push_last items item in up grown (length grown - 1)

  -- Heap.Pop over heap.Pop
  unfoldable pub pop : List (Item A) → Option (Item A × List (Item A))
  unfolding swap down pop_last
  pop items =
      if length items == 0
      then none
      else do let n = length items - 1; a ← swap items 0 n; (moved, b) ← down a 0 n; pop_last b

  -- Heap.Remove over heap.Remove
  unfoldable pub remove : List (Item A) → ℕ → Option (Item A × List (Item A))
  unfolding swap down up pop_last
  remove items i = if length items == 0 then none else do
    let n = length items - 1
    let last : Option (List (Item A)) = do
      a ← swap items i n
      (moved, b) ← down a i n
      if moved then some b else up b i
    b ← if n == i then some items else last
    pop_last b
