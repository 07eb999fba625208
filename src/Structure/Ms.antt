-- ===== src/Structure/Ms.antt =====
-- structure/ms.go: a list of items from which Take picks in turn, with callbacks on insertion and
-- removal. What the callbacks change is the state `S`, which each operation passes on.
-- Items are compared by `==` in Remove and Contains: pointers, here an instance of Eq.
pub mod Laws
pub mod Counted
mod Tests
use gostalkd.Prelude.{
  ℕ, zero, suc, ◌+◌, ◌-◌, ◌%◌, ◌≡◌, ◌↔◌, Bool, true, false, List, [], ◌∷◌, ◌++◌, Option, none, some,
  leb, ◌==◌, if◌then◌else◌, length, get_elem?, take, drop,
}

pub record Eq {ℓ} (A : Type ℓ) : Type ℓ where
  pub is_same : A → A → Bool
  pub is_same_iff : (a b : A) → (is_same a b ≡ true) ↔ (a ≡ b)

pub record Ms {ℓ} (A : Type ℓ) : Type ℓ where
  pub last : ℕ
  pub items : List A

-- MsEventFn
abbrev pub EventFn {ℓ κ} : Type ℓ → Type κ → Type (ℓ ⊔ κ)
EventFn A S = Ms A → A → ℕ → S → S

-- The callbacks of a list: the fields onInsert and onRemove, which the With… methods set.
pub record Events {ℓ κ} (A : Type ℓ) (S : Type κ) : Type (ℓ ⊔ κ) where
  pub on_insert : Option (EventFn A S)
  pub on_remove : Option (EventFn A S)

module _ {ℓ} {A : Type ℓ} where
  -- NewMs
  abbrev pub new_ms : Ms A
  new_ms = record { last = 0; items = [] }

  -- Ms.Len
  abbrev pub len : Ms A → ℕ
  len m = length m.items

  abbrev pub without : List A → ℕ → List A
  without xs i = take i xs ++ drop (suc i) xs

  -- Ms.Iterator: `fn` says whether to stop; an error stops the loop as well
  unfoldable pub iterate {κ} : {S : Type κ} → (A → S → Bool × S) → List A → S → S
  iterate fn [] s = s
  iterate fn (x ∷ xs) s =
      let (stop, s') = fn x s in elim stop [ true ↦ s' | false ↦ iterate fn xs s' ]

module _ {ℓ κ} {A : Type ℓ} {S : Type κ} where
  abbrev pub fire : Option (EventFn A S) → EventFn A S
  fire none m x i s = s
  fire (some fn) m x i s = fn m x i s

  -- the loop of Append over the new items
  unfoldable pub fire_all : Option (EventFn A S) → Ms A → List A → ℕ → S → S
  fire_all fn m [] i s = s
  fire_all fn m (x ∷ xs) i s = fire_all fn m xs i (fire fn m x i s)

  -- Ms.Append
  unfoldable pub append : Events A S → Ms A → List A → S → ℕ × Ms A × S
  unfolding fire_all
  append ev m new s =
      let m' : Ms A = record m { items = m.items ++ new } in
      let l = length m'.items in (l, m', fire_all ev.on_insert m' new (l - 1) s)

  -- Ms.Delete; an index out of range, negative ones too, gives nil
  unfoldable pub delete : Events A S → Ms A → ℕ → S → Option A × Ms A × S
  delete ev m i s = elim (get_elem? m.items i) [
    | none ↦ (none, m, s)
    | some x ↦
        let m' : Ms A = record m { items = without m.items i } in
        (some x, m', fire ev.on_remove m' x i s)
  ]

  -- `for m.Delete(0) != nil {}`; each round takes an item away, so `fuel` above the length is enough
  unfoldable pub clear_loop : ℕ → Events A S → Ms A → S → Option (Ms A × S)
  unfolding delete
  clear_loop zero ev m s = none
  clear_loop (suc fuel) ev m s =
      let (x, m', s') = delete ev m 0 s in
      elim x [ none ↦ some (m', s') | some _ ↦ clear_loop fuel ev m' s' ]

  -- Ms.Clear
  unfoldable pub clear : Events A S → Ms A → S → Option (Ms A × S)
  unfolding clear_loop
  clear ev m s = elim (clear_loop (length m.items + 1) ev m s) [
    | none ↦ none
    | some (m', s') ↦ some (record { last = 0; items = [] }, s')
  ]

  -- Ms.Take
  unfoldable pub take_next : Events A S → Ms A → S → Option A × Ms A × S
  take_next ev m s =
      let at = m.last % length m.items in
      elim (get_elem? m.items at) [
        | none ↦ (none, m, s)
        | some x ↦
            let m' : Ms A = record { last = at; items = without m.items at } in
            (some x, record m' { last = at + 1 }, fire ev.on_remove m' x at s)
      ]

module _ {ℓ} {A : Type ℓ} ⦃e : Eq A⦄ where
  -- the index at which the loop of Remove finds the item
  unfoldable pub find_index : List A → A → Option ℕ
  find_index [] x = none
  find_index (y ∷ ys) x =
      let later : Option ℕ = elim (find_index ys x) [ none ↦ none | some i ↦ some (suc i) ] in
      if e.is_same x y then some 0 else later

  -- Ms.Contains
  unfoldable pub contains : List A → A → Bool
  contains [] x = false
  contains (y ∷ ys) x = if e.is_same x y then true else contains ys x

  -- Ms.Remove
  unfoldable pub remove {κ} : {S : Type κ} → Events A S → Ms A → A → S → Bool × Ms A × S
  unfolding find_index delete
  remove ev m x s = elim (find_index m.items x) [
    | none ↦ (false, m, s)
    | some i ↦ let (y, m', s') = delete ev m i s in (true, m', s')
  ]
