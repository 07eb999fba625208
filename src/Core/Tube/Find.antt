-- ===== src/Core/Tube/Find.antt =====
-- TubeFind and TubeFindOrMake.
use mathlib.Core.List.{Memᴰ}
use gostalkd.Prelude.{
  ℕ, ◌≡◌, ◌≢◌, ◌↔◌, refl, ◌∙◌, Bool, true, false, List, [], ◌∷◌, ◌++◌, Option, none, some, All,
  Bytes, arith, ◌==◌, update, Bool-cases, Option-cases, inl, inr,
}
use gostalkd.Core.Job.{Jobs}
use gostalkd.Core.Tube.{
  Tube, Tubes, same_name, find_loop, tube_find, tube_find_or_make, make_and_insert_tube,
}

pub same_name_iff : (s t : Bytes) → (same_name s t ≡ true) ↔ (s ≡ t)
same_name_iff [] [] = (λ h. refl, λ h. refl)
same_name_iff [] (d ∷ t) = (λ h. cc, λ h. cc)
same_name_iff (c ∷ s) [] = (λ h. cc, λ h. cc)
same_name_iff (c ∷ s) (d ∷ t) = (
  λ h.
      let first : c ≡ d = ground arith in
      let others : s ≡ t = (same_name_iff s t).0 (ground arith) in cc,
  λ h. let first : c ≡ d = cc in let others = (same_name_iff s t).1 (cc) in ground (arith, others),
)

-- No tube of the list has the name.
abbrev pub Unnamed : (ℕ → Tube) → Bytes → List ℕ → Type 0
Unnamed at name ts = All (λ t. (at t).name ≢ name) ts

-- What the search finds: nothing, and no tube has the name; or a tube of the list with it.
pub data Found (at : ℕ → Tube) (ts : List ℕ) (name : Bytes) : Option ℕ → Type 0 where
  absent : Unnamed at name ts → Found at ts name none
  present : {t : ℕ} → Memᴰ t ts → (at t).name ≡ name → Found at ts name (some t)

Found-cons :
    (at : ℕ → Tube) (u : ℕ) (ts : List ℕ) (name : Bytes) {out : Option ℕ}
    → (at u).name ≢ name
    → Found at ts name out
    → Found at (u ∷ ts) name out
Found-cons at u ts name h (absent a) = absent (h, a)
Found-cons at u ts name h (present m e) = present (Memᴰ.tail m) e

find_loop-Found :
    (at : ℕ → Tube) (ts : List ℕ) (name : Bytes) → Found at ts name (find_loop at ts name)
unfolding find_loop
find_loop-Found at [] name = absent tt
find_loop-Found at (u ∷ ts) name = elim (Bool-cases (same_name (at u).name name)) [
  | inl q ↦ rw q (present (Memᴰ.head refl) ((same_name_iff (at u).name name).0 q))
  | inr q ↦ rw q (
      Found-cons at u ts name (λ e. absurd (differ ((same_name_iff (at u).name name).1 e) q))
        (find_loop-Found at ts name))
]
  where
    differ : {b : Bool} → b ≡ true → b ≡ false → ⊥
    differ p q = cc

-- TubeFind gives a tube of that name, or nil if no tube has it.
pub tube_find-Found :
    (ts : Tubes) (name : Bytes) → Found ts.at ts.tubes.items name (tube_find ts name)
unfolding tube_find
tube_find-Found ts name = find_loop-Found ts.at ts.tubes.items name

find_loop-update :
    (at : ℕ → Tube) (a : ℕ) (new : Tube) (ts : List ℕ) (name : Bytes)
    → All (λ t. t ≢ a) ts
    → find_loop (update at a new) ts name ≡ find_loop at ts name
unfolding find_loop
find_loop-update at a new [] name h = refl
find_loop-update at a new (t ∷ ts) name h =
    let other : (t == a) ≡ false = ground (arith, h.0) in
    rw (other, find_loop-update at a new ts name h.1)

find_loop-append :
    (at : ℕ → Tube) (ts : List ℕ) (a : ℕ) (name : Bytes)
    → find_loop at ts name ≡ none
    → (at a).name ≡ name
    → find_loop at (ts ++ a ∷ []) name ≡ some a
unfolding find_loop
find_loop-append at [] a name h e = rw ((same_name_iff (at a).name name).1 e)
find_loop-append at (t ∷ ts) a name h e = elim (Bool-cases (same_name (at t).name name)) [
  | inl q ↦ absurd (ground (arith, q))
  | inr q ↦ rw q (find_loop-append at ts a name (rw q at h) e)
]

Found-name :
    {at : ℕ → Tube} {ts : List ℕ} {name : Bytes} {t : ℕ}
    → Found at ts name (some t)
    → (at t).name ≡ name
Found-name (present m e) = e

-- A new tube is the one that is found under its name.
make_and_insert-found :
    (js : Jobs) (ts : Tubes) (now : ℕ) (name : Bytes)
    → All (λ t. t ≢ ts.fresh) ts.tubes.items
    → find_loop ts.at ts.tubes.items name ≡ none
    → let (t, js', ts') = make_and_insert_tube js ts now name in
      (find_loop ts'.at ts'.tubes.items name ≡ some t) × ((ts'.at t).name ≡ name)
unfolding make_and_insert_tube
make_and_insert-found js ts now name h q =
    let named : ((make_and_insert_tube js ts now name).2.at ts.fresh).name ≡ name = ground arith in
    (
      find_loop-append _ ts.tubes.items ts.fresh name
          (find_loop-update ts.at ts.fresh _ ts.tubes.items name h ∙ q) named,
      named,
    )

-- If the next free address holds no tube yet: after TubeFindOrMake, TubeFind finds the tube that it returned, which has the name; a tube that
-- had the name already is returned unchanged, and nothing else is made.
pub tube_find_or_make-tube_find :
    (js : Jobs) (ts : Tubes) (now : ℕ) (name : Bytes)
    → All (λ t. t ≢ ts.fresh) ts.tubes.items
    → let (t, js', ts') = tube_find_or_make js ts now name in
      (tube_find ts' name ≡ some t)
      × ((ts'.at t).name ≡ name)
      × ((u : ℕ) → tube_find ts name ≡ some u → (t ≡ u) × (js' ≡ js) × (ts' ≡ ts))
unfolding tube_find_or_make tube_find
tube_find_or_make-tube_find js ts now name h =
    elim (Option-cases (find_loop ts.at ts.tubes.items name)) [
      | inl q ↦
          let made = make_and_insert-found js ts now name h q in
          rw (q, tube_find_or_make) (made.0, made.1, λ u e. absurd (cc))
      | inr (t, q) ↦
          rw (q, tube_find_or_make)
            (
              q,
              Found-name (rw q at (find_loop-Found ts.at ts.tubes.items name)),
              λ u e. (cc, refl, refl),
            )
    ]
