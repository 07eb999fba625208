-- ===== src/Structure/Ms/Counted.antt =====
-- Callbacks that count: the onInsert and onRemove of a watch list keep a number of 64 bits for each
-- item, as net/conn.go's onWatch and onIgnore keep WatchingCt.
use gostalkd.Prelude.{
  ℕ, zero, suc, ◌+◌, ◌-◌, ◌%◌, ◌≤◌, ◌<◌, ◌≡◌, refl, add64, sub64, mod64, List, [], ◌∷◌, ◌++◌, some,
  arith, if◌then◌else◌, length, get_elem?, Option-cases, inl, inr,
}
use gostalkd.Structure.Ms.{
  Ms, Events, Eq, fire, fire_all, without, append, delete, clear, take_next, remove, find_index,
  new_ms,
}
use gostalkd.Structure.Ms.Laws.{removals, clear_correct}

module _ {ℓ} {A : Type ℓ} ⦃e : Eq A⦄ where
  abbrev pub one_if : A → A → ℕ
  one_if a x = if e.is_same a x then 1 else 0

  abbrev pub count : A → List A → ℕ
  count a [] = 0
  count a (x ∷ xs) = one_if a x + count a xs

  one_if-le : (a x : A) → one_if a x ≤ 1
  one_if-le a x = ground arith

  pub count-append :
      (a : A) (front back : List A) → count a (front ++ back) ≡ count a front + count a back
  count-append a [] back = omega arith
  count-append a (y ∷ front) back = let later = count-append a front back in omega (arith, later)

  pub count-without :
      (a : A) (xs : List A) (i : ℕ) {x : A}
      → get_elem? xs i ≡ some x
      → count a xs ≡ one_if a x + count a (without xs i)
  count-without a [] i h = cc
  count-without a (y ∷ xs) zero {x} h = let q : y ≡ x = cc in rw q
  count-without a (y ∷ xs) (suc i) h = omega (arith, count-without a xs i h)

  -- The callbacks add one for the item that comes, and take one away for the item that goes.
  pub record IsCounting {κ} (S : Type κ) (ev : Events A S) : Type (ℓ ⊔ κ) where
    pub number : A → S → ℕ
    pub insert_adds :
        (m : Ms A) (x : A) (i : ℕ) (s : S) (a : A)
        → number a s < mod64
        → number a (fire ev.on_insert m x i s) ≡ add64 (number a s) (one_if a x)
    pub remove_takes :
        (m : Ms A) (x : A) (i : ℕ) (s : S) (a : A)
        → number a s < mod64
        → number a (fire ev.on_remove m x i s) ≡ sub64 (number a s) (one_if a x)

  module _ {κ} {S : Type κ} {ev : Events A S} (c : IsCounting S ev) where
    -- Each number is `base` and how often the item stands in the list, modulo 2 ^ 64.
    abbrev pub Counts : (A → ℕ) → Ms A → S → Type ℓ
    Counts base m s = (a : A) → c.number a s ≡ (base a + count a m.items) % mod64

    fire_all-number :
        (m : Ms A) (xs : List A) (i : ℕ) (s : S) (a : A)
        → c.number a s < mod64
        → c.number a (fire_all ev.on_insert m xs i s) ≡ add64 (c.number a s) (count a xs)
    unfolding fire_all
    fire_all-number m [] i s a lt = omega arith
    fire_all-number m (x ∷ xs) i s a lt =
        let first = c.insert_adds m x i s a lt in
        let later = fire_all-number m xs i (fire ev.on_insert m x i s) a (omega (arith, first)) in
        omega (arith, first, later)

    -- With callbacks that count: if each item's number is its base and how often it stands in
    -- the list, modulo 2 ^ 64, this holds after Append too.
    pub append-Counts :
        (base : A → ℕ) (m : Ms A) (new : List A) (s : S)
        → Counts base m s
        → Counts base (append ev m new s).1 (append ev m new s).2
    unfolding append
    append-Counts base m new s h a = omega (
      arith,
      h a,
      count-append a m.items new,
      fire_all-number (record m { items = m.items ++ new }) new (length (m.items ++ new) - 1) s a
          (omega (arith, h a)),
    )

    drop-Counts :
        (base : A → ℕ) (m : Ms A) (i last : ℕ) {x : A} (s : S)
        → get_elem? m.items i ≡ some x
        → Counts base m s
        → Counts base
            (record { last = last; items = without m.items i })
            (fire ev.on_remove (record { last = last; items = without m.items i }) x i s)
    drop-Counts base m i last {x} s g h a =
        let split = count-without a m.items i g in
        omega (
          arith,
          h a,
          split,
          c.remove_takes (record { last = last; items = without m.items i }) x i s a
              (omega (arith, h a)),
          one_if-le a x,
        )

    -- With callbacks that count: if each item's number is its base and how often it stands in
    -- the list, modulo 2 ^ 64, this holds after Delete too, in range and out of range.
    pub delete-Counts :
        (base : A → ℕ) (m : Ms A) (i : ℕ) (s : S)
        → Counts base m s
        → Counts base (delete ev m i s).1 (delete ev m i s).2
    unfolding delete
    delete-Counts base m i s h = elim (Option-cases (get_elem? m.items i)) [
      | inl q ↦ rw (q, delete) h
      | inr (x, q) ↦ rw (q, delete) (drop-Counts base m i m.last s q h)
    ]

    -- With callbacks that count: if each item's number is its base and how often it stands in
    -- the list, modulo 2 ^ 64, this holds after Remove too, whether or not it finds the item.
    pub remove-Counts :
        (base : A → ℕ) (m : Ms A) (x : A) (s : S)
        → Counts base m s
        → Counts base (remove ev m x s).1 (remove ev m x s).2
    unfolding remove
    remove-Counts base m x s h = elim (Option-cases (find_index m.items x)) [
      | inl q ↦ rw (q, remove) h
      | inr (i, q) ↦ rw (q, remove) (delete-Counts base m i s h)
    ]

    -- With callbacks that count: if each item's number is its base and how often it stands in
    -- the list, modulo 2 ^ 64, this holds after Take too, from the empty list as well.
    pub take_next-Counts :
        (base : A → ℕ) (m : Ms A) (s : S)
        → Counts base m s
        → Counts base (take_next ev m s).1 (take_next ev m s).2
    unfolding take_next
    take_next-Counts base m s h =
        let at = m.last % length m.items in
        elim (Option-cases (get_elem? m.items at)) [
          | inl q ↦ rw (q, take_next) h
          | inr (x, q) ↦ rw (q, take_next) (drop-Counts base m at at s q h)
        ]

    removals-Counts :
        (base : A → ℕ) (last : ℕ) (xs : List A) (s : S)
        → Counts base (record { last = last; items = xs }) s
        → Counts base new_ms (removals ev last xs s)
    removals-Counts base last [] s h = h
    removals-Counts base last (x ∷ xs) s h =
        removals-Counts base last xs _
          (drop-Counts base (record { last = last; items = x ∷ xs }) 0 last s refl h)

    -- With callbacks that count: if each item's number is its base and how often it stands in
    -- the list, modulo 2 ^ 64, each number is its base after Clear.
    pub clear-Counts :
        (base : A → ℕ) (m m' : Ms A) (s s' : S)
        → Counts base m s
        → clear ev m s ≡ some (m', s')
        → (a : A) → c.number a s' ≡ base a % mod64
    clear-Counts base m m' s s' h e a =
        let kept = removals-Counts base m.last m.items s h a in
        let same : s' ≡ removals ev m.last m.items s = ground (arith, clear_correct ev m s, e) in
        rw same (omega (arith, kept))
