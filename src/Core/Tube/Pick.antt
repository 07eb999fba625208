-- ===== src/Core/Tube/Pick.antt =====
-- Choosing the first of the candidates that tubes offer: the least one, if there is any.
use mathlib.Core.List.{Memᴰ}
use gostalkd.Prelude.{
  ℕ, ◌≡◌, refl, Bool, true, false, List, [], ◌∷◌, Option, none, some, All, arith, if◌then◌else◌,
  Bool-cases, inl, inr,
}
use gostalkd.Structure.Heap.Order.{Ranking}

-- The choice between the best candidate so far and the next one.
abbrev pub pick : (ℕ → ℕ → Bool) → Option ℕ → Option ℕ → Option ℕ
pick less best none = best
pick less none (some k) = some k
pick less (some j) (some k) = if less k j then some k else some j

abbrev pub pick_all : (ℕ → ℕ → Bool) → Option ℕ → List (Option ℕ) → Option ℕ
pick_all less best [] = best
pick_all less best (o ∷ os) = pick_all less (pick less best o) os

module _ (less : ℕ → ℕ → Bool) where
  -- The candidate is not before `j`.
  abbrev pub NotBefore : ℕ → Option ℕ → Type 0
  NotBefore j none = Unit
  NotBefore j (some k) = less k j ≡ false

  abbrev pub IsNone : Option ℕ → Type 0
  IsNone none = Unit
  IsNone (some k) = ⊥

  -- The result is nil if nothing is offered, and otherwise an offer that no other is before.
  pub data IsBest (os : List (Option ℕ)) : Option ℕ → Type 0 where
    nothing : All IsNone os → IsBest os none
    least : {j : ℕ} → Memᴰ (some j) os → All (NotBefore j) os → IsBest os (some j)

module _ {less : ℕ → ℕ → Bool} (r : Ranking ℕ less) where
  self_not : (j : ℕ) → less j j ≡ false
  self_not j = ground (arith, r.less-rank j j)

  module _ (j k : ℕ) (os : List (Option ℕ)) where
    keep_new :
        {out : Option ℕ}
        → less k j ≡ true
        → IsBest less (some k ∷ os) out
        → IsBest less (some j ∷ some k ∷ os) out
    keep_new q (nothing a) = absurd a.0
    keep_new q (least {j = b} m a) =
        least (Memᴰ.tail m)
          (ground (arith, r.less-rank k j, r.less-rank k b, r.less-rank j b, q, a.0), a)

    keep_old :
        {out : Option ℕ}
        → less k j ≡ false
        → IsBest less (some j ∷ os) out
        → IsBest less (some j ∷ some k ∷ os) out
    keep_old q (nothing a) = absurd a.0
    keep_old q (least {j = b} (Memᴰ.head e) a) =
        least (Memᴰ.head e)
          (a.0, (ground (arith, r.less-rank k j, r.less-rank k b, r.less-rank j b, q, a.0), a.1))
    keep_old q (least {j = b} (Memᴰ.tail m) a) =
        least (Memᴰ.tail (Memᴰ.tail m))
          (a.0, (ground (arith, r.less-rank k j, r.less-rank k b, r.less-rank j b, q, a.0), a.1))

  skip :
      (best : Option ℕ) (os : List (Option ℕ)) {out : Option ℕ}
      → IsBest less (best ∷ os) out
      → IsBest less (best ∷ none ∷ os) out
  skip best os (nothing a) = nothing (a.0, (tt, a.1))
  skip best os (least (Memᴰ.head e) a) = least (Memᴰ.head e) (a.0, (tt, a.1))
  skip best os (least (Memᴰ.tail m) a) = least (Memᴰ.tail (Memᴰ.tail m)) (a.0, (tt, a.1))

  first_offer :
      (k : ℕ) (os : List (Option ℕ)) {out : Option ℕ}
      → IsBest less (some k ∷ os) out
      → IsBest less (none ∷ some k ∷ os) out
  first_offer k os (nothing a) = absurd a.0
  first_offer k os (least m a) = least (Memᴰ.tail m) (tt, a)

  pick-IsBest :
      (best o : Option ℕ) (os : List (Option ℕ)) {out : Option ℕ}
      → IsBest less (pick less best o ∷ os) out
      → IsBest less (best ∷ o ∷ os) out
  pick-IsBest best none os h = skip best os h
  pick-IsBest none (some k) os h = first_offer k os h
  pick-IsBest (some j) (some k) os h = elim (Bool-cases (less k j)) [
    | inl q ↦ keep_new j k os q (rw q at h)
    | inr q ↦ keep_old j k os q (rw q at h)
  ]

  -- The choice is the best of the first candidate and the offers.
  pub pick_all-IsBest :
      (best : Option ℕ) (os : List (Option ℕ)) → IsBest less (best ∷ os) (pick_all less best os)
  pick_all-IsBest none [] = nothing (tt, tt)
  pick_all-IsBest (some j) [] = least (Memᴰ.head refl) (self_not j, tt)
  pick_all-IsBest best (o ∷ os) = pick-IsBest best o os (pick_all-IsBest (pick less best o) os)

  -- With no candidate at the start, it is the best of the offers.
  pub pick_all-none : (os : List (Option ℕ)) → IsBest less os (pick_all less none os)
  pick_all-none os = forget os (pick_all-IsBest none os)
    where
      forget :
          (os : List (Option ℕ)) {out : Option ℕ} → IsBest less (none ∷ os) out → IsBest less os out
      forget os (nothing a) = nothing a.1
      forget os (least (Memᴰ.head e) a) = absurd (cc)
      forget os (least (Memᴰ.tail m) a) = least m a.1
