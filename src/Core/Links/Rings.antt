-- ===== src/Core/Links/Rings.antt =====
-- What it means that a head stands for a list of jobs.
use gostalkd.Prelude.{ℕ, ◌≡◌, ◌≢◌, sym, ◌∙◌, List, [], ◌∷◌, ◌++◌}
use gostalkd.Core.Links.{Links}

-- From `a` the Next fields lead through the jobs of the list to `b`, and the Prev fields back.
abbrev pub Chain : Links → ℕ → List ℕ → ℕ → Type 0
Chain l a [] b = (l.next a ≡ b) × (l.prev b ≡ a)
Chain l a (x ∷ xs) b = (l.next a ≡ x) × (l.prev x ≡ a) × Chain l x xs b

abbrev pub Avoids : ℕ → List ℕ → Type 0
Avoids a [] = Unit
Avoids a (x ∷ xs) = (x ≢ a) × Avoids a xs

abbrev pub Distinct : List ℕ → Type 0
Distinct [] = Unit
Distinct (x ∷ xs) = Avoids x xs × Distinct xs

-- The ring of `head` holds exactly the jobs of the list, in this order, and each of them once.
pub record Ring (l : Links) (head : ℕ) (xs : List ℕ) : Type 0 where
  pub chain : Chain l head xs head
  pub distinct : Distinct (head ∷ xs)

-- A job in no list points at itself.
pub record IsAlone (l : Links) (j : ℕ) : Type 0 where
  pub no_next : l.next j ≡ j
  pub no_prev : l.prev j ≡ j

pub Avoids-append : (a : ℕ) (xs ys : List ℕ) → Avoids a xs → Avoids a ys → Avoids a (xs ++ ys)
Avoids-append a [] ys h k = k
Avoids-append a (x ∷ xs) ys h k = (h.0, Avoids-append a xs ys h.1 k)

pub Avoids-split : (a : ℕ) (xs ys : List ℕ) → Avoids a (xs ++ ys) → Avoids a xs × Avoids a ys
Avoids-split a [] ys h = (tt, h)
Avoids-split a (x ∷ xs) ys h = let (p, q) = Avoids-split a xs ys h.1 in ((h.0, p), q)

pub Distinct-snoc : (xs : List ℕ) (j : ℕ) → Distinct xs → Avoids j xs → Distinct (xs ++ j ∷ [])
Distinct-snoc [] j d h = (tt, tt)
Distinct-snoc (x ∷ xs) j d h =
    (Avoids-append x xs (j ∷ []) d.0 ((λ e. h.0 (sym e)), tt), Distinct-snoc xs j d.1 h.1)

pub Distinct-drop :
    (xs : List ℕ) (j : ℕ) (ys : List ℕ) → Distinct (xs ++ j ∷ ys) → Distinct (xs ++ ys)
Distinct-drop [] j ys d = d.1
Distinct-drop (x ∷ xs) j ys d =
    let (p, q) = Avoids-split x xs (j ∷ ys) d.0 in
    (Avoids-append x xs ys p q.1, Distinct-drop xs j ys d.1)

-- The job before the end of a chain is on the chain.
pub Chain-last :
    (l : Links) (a : ℕ) (xs : List ℕ) (b c : ℕ) → Chain l a xs b → Avoids c (a ∷ xs) → l.prev b ≢ c
Chain-last l a [] b c h v = λ e. v.0 (sym h.1 ∙ e)
Chain-last l a (x ∷ xs) b c h v = Chain-last l x xs b c h.2 v.1

pub Distinct-middle :
    (xs : List ℕ) (j : ℕ) (ys : List ℕ) → Distinct (xs ++ j ∷ ys) → Avoids j xs × Avoids j ys
Distinct-middle [] j ys d = (tt, d.0)
Distinct-middle (x ∷ xs) j ys d =
    let (p, q) = Distinct-middle xs j ys d.1 in
    (((λ e. (Avoids-split x xs (j ∷ ys) d.0).1.0 (sym e)), p), q)
