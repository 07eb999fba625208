-- ===== src/Structure/Ms/Laws.antt =====
-- What Clear, Remove, Contains and Take do to the items of a list.
use mathlib.Core.List.Perm
use gostalkd.Prelude.{
  ℕ, zero, suc, ◌+◌, ◌%◌, ◌<◌, ◌≤◌, ◌≡◌, ◌↔◌, refl, sym, ap, true, false, List, [], ◌∷◌, ◌++◌,
  Option, none, some, Perm, arith, if◌then◌else◌, length, get_elem?, get_elem?-in, lt_of_get_elem?,
  take, drop, inl, inr, dec_lt, get_elem?-none, length-perm, nil_of_length, Bool-cases,
}
use gostalkd.Structure.Ms.{
  Ms, Events, Eq, fire, without, delete, clear, clear_loop, take_next, find_index, contains, remove,
  new_ms,
}

module _ {ℓ} {A : Type ℓ} where
  pub length-without : (xs : List A) (i : ℕ) → i < length xs → length (without xs i) + 1 ≡ length xs
  length-without [] i h = absurd (omega arith)
  length-without (x ∷ xs) zero h = omega arith
  length-without (x ∷ xs) (suc i) h = omega (arith, length-without xs i (omega arith))

  pub without-perm :
      (xs : List A) (i : ℕ) {x : A} → get_elem? xs i ≡ some x → Perm (x ∷ without xs i) xs
  without-perm [] i h = cc
  without-perm (y ∷ xs) zero {x} h = let e : y ≡ x = cc in rw e (Perm.refl _)
  without-perm (y ∷ xs) (suc i) {x} h =
      Perm.trans (Perm.swap y x _) (Perm.cons y (without-perm xs i h))

  -- The list splits around the index.
  pub without-split :
      (xs : List A) (i : ℕ) {x : A}
      → get_elem? xs i ≡ some x
      → (xs ≡ take i xs ++ x ∷ drop (suc i) xs)
  without-split [] i h = cc
  without-split (y ∷ xs) zero {x} h = let e : y ≡ x = cc in rw e
  without-split (y ∷ xs) (suc i) h = ap (◌∷◌ y) (without-split xs i h)

module _ {ℓ κ} {A : Type ℓ} {S : Type κ} (ev : Events A S) where
  -- The calls of onRemove that empty a list from the front.
  abbrev pub removals : ℕ → List A → S → S
  removals last [] s = s
  removals last (x ∷ xs) s =
      removals last xs (fire ev.on_remove (record { last = last; items = xs }) x 0 s)

  clear_loop_lem :
      (fuel last : ℕ) (xs : List A) (s : S)
      → length xs < fuel
      → clear_loop fuel ev (record { last = last; items = xs }) s
        ≡ some (record { last = last; items = [] }, removals last xs s)
  unfolding clear_loop delete
  clear_loop_lem zero last xs s h = absurd (omega arith)
  clear_loop_lem (suc fuel) last [] s h = refl
  clear_loop_lem (suc fuel) last (x ∷ xs) s h = clear_loop_lem fuel last xs _ (omega arith)

  -- Clear always ends with the list of NewMs, and has called onRemove once for each item, from
  -- the first to the last.
  pub clear_correct : (m : Ms A) (s : S) → clear ev m s ≡ some (new_ms, removals m.last m.items s)
  unfolding clear
  clear_correct m s = rw (clear_loop_lem (length m.items + 1) m.last m.items s (omega arith), clear)

  -- Take reads in range, from a list with items.
  take_next-in :
      (m : Ms A) (s : S)
      → 0 < length m.items
      → (x : A) × (get_elem? m.items (m.last % length m.items) ≡ some x)
        × (take_next ev m s ≡ (
          some x,
          record {
            last = m.last % length m.items + 1;
            items = without m.items (m.last % length m.items);
          },
          fire ev.on_remove
              (record {
                last = m.last % length m.items;
                items = without m.items (m.last % length m.items);
              })
              x
              (m.last % length m.items)
              s,
        ))
  unfolding take_next
  take_next-in m s h =
      let (x, e) = get_elem?-in m.items (m.last % length m.items) (grind arith) in
      (x, e, rw (e, take_next))

  -- Take gives nil exactly from an empty list.
  pub take_next-none : (m : Ms A) (s : S) → ((take_next ev m s).0 ≡ none) ↔ (length m.items ≡ 0)
  unfolding take_next
  take_next-none m s = (
    λ e. elim (dec_lt 0 (length m.items)) [
      | yes h ↦ let (x, ex, et) = take_next-in m s h in cc
      | no h ↦ omega arith
    ],
    λ e.
        let out = get_elem?-none m.items (m.last % length m.items) (omega arith) in
        rw (out, take_next),
  )

  -- What Take does to a list with items: one of them is returned, the others stay, and the next
  -- call starts within the list or at its end.
  pub record Taken (m : Ms A) (s : S) (x : A) (out : Option A × Ms A × S) : Type (ℓ ⊔ κ) where
    pub result : out.0 ≡ some x
    pub at : get_elem? m.items (m.last % length m.items) ≡ some x
    pub same : Perm (x ∷ out.1.items) m.items
    pub next : out.1.last ≤ length m.items

  pub take_next_lem :
      (m : Ms A) (s : S) → 0 < length m.items → (x : A) × Taken m s x (take_next ev m s)
  take_next_lem m s h =
      let (x, ex, et) = take_next-in m s h in
      (
        x,
        rw et (record {
          result = refl;
          at = ex;
          same = without-perm m.items _ ex;
          next = omega (arith, lt_of_get_elem? m.items _ ex);
        }),
      )

  -- `n` calls of Take, and the items that they return.
  abbrev pub takes : ℕ → Ms A → S → List A × Ms A × S
  takes zero m s = ([], m, s)
  takes (suc n) m s =
      let (x, m', s') = take_next ev m s in
      let (xs, m'', s'') = takes n m' s' in (elim x [ none ↦ xs | some y ↦ y ∷ xs ], m'', s'')

  -- As many calls of Take as there are items return every item, each as often as it was there,
  -- and leave none.
  pub takes-perm :
      (n : ℕ) (m : Ms A) (s : S)
      → length m.items ≡ n
      → Perm (takes n m s).0 m.items × (length (takes n m s).1.items ≡ 0)
  takes-perm zero m s h = (rw (nil_of_length m.items h) (Perm.refl _), h)
  takes-perm (suc n) m s h =
      let (x, t) = take_next_lem m s (omega arith) in
      let shorter : length (take_next ev m s).1.items ≡ n = omega (arith, length-perm t.same) in
      let (p, e) = takes-perm n (take_next ev m s).1 (take_next ev m s).2 shorter in
      (rw (t.result, takes) (Perm.trans (Perm.cons x p) t.same), e)

module _ {ℓ} {A : Type ℓ} ⦃e : Eq A⦄ where
  -- The list without the first item that equals `x`.
  abbrev pub erase_first : List A → A → List A
  erase_first [] x = []
  erase_first (y ∷ ys) x = if e.is_same x y then ys else y ∷ erase_first ys x

  -- What the index that Remove finds means.
  data Search (xs : List A) (x : A) : Option ℕ → Type ℓ where
    missing : contains xs x ≡ false → erase_first xs x ≡ xs → Search xs x none
    found :
        {i : ℕ}
        → contains xs x ≡ true
        → get_elem? xs i ≡ some x
        → erase_first xs x ≡ without xs i
        → Search xs x (some i)

  Search-cons :
      (y : A) (ys : List A) (x : A) {o : Option ℕ}
      → e.is_same x y ≡ false
      → Search ys x o
      → Search (y ∷ ys) x (elim o [ none ↦ none | some i ↦ some (suc i) ])
  unfolding contains
  Search-cons y ys x h (missing p q) = missing (rw h p) (rw (h, q))
  Search-cons y ys x h (found p g q) = found (rw h p) g (rw (h, q))

  find_index-Search : (xs : List A) (x : A) → Search xs x (find_index xs x)
  unfolding find_index contains
  find_index-Search [] x = missing refl refl
  find_index-Search (y ∷ ys) x = elim (Bool-cases (e.is_same x y)) [
    | inl eq ↦
        let same : x ≡ y = (e.is_same_iff x y).0 eq in
        rw eq (found (rw eq) (ap some (sym same)) (rw eq))
    | inr ne ↦ rw ne (Search-cons y ys x ne (find_index-Search ys x))
  ]

  module _ {κ} {S : Type κ} (ev : Events A S) where
    -- Remove returns what Contains says, takes away the first item that equals the given one, and
    -- no other, and keeps where Take goes on.
    pub remove-erase_first :
        (m : Ms A) (x : A) (s : S)
        → ((remove ev m x s).0 ≡ contains m.items x)
          × ((remove ev m x s).1.items ≡ erase_first m.items x)
          × ((remove ev m x s).1.last ≡ m.last)
    unfolding remove
    remove-erase_first m x s = go (find_index m.items x) refl (find_index-Search m.items x)
      where
        go :
            (o : Option ℕ)
            → find_index m.items x ≡ o
            → Search m.items x o
            → ((remove ev m x s).0 ≡ contains m.items x)
              × ((remove ev m x s).1.items ≡ erase_first m.items x)
              × ((remove ev m x s).1.last ≡ m.last)
        go none q (missing p r) = rw (q, remove) (sym p, sym r, refl)
        go (some i) q (found p g r) = rw (q, remove, g, delete) (sym p, sym r, refl)
