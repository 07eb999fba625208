-- ===== src/Net/Tallied/Made.antt =====
-- Looking a tube up by its name, and making it if it is not there, keeps the tally.
use gostalkd.Prelude.{
  ℕ, ◌+◌, ◌<◌, ◌≡◌, refl, ap, ◌∙◌, sym, inl, inr, List, [], ◌∷◌, ◌++◌, some, Option-cases,
  Bool-cases, Bytes, update, arith,
}
use gostalkd.Core.Tube.{Tube, Tubes, find_loop, same_name, tube_find_or_make, make_and_insert_tube}
use gostalkd.Machine.{World}
use gostalkd.Core.Job.{Jobs}
use gostalkd.Machine.Frame.{Ends, ends, numbers, update-keeps, Quiet-same}
use gostalkd.Net.Conn.{address_eq}
use gostalkd.Net.Commands.Tubes.{find_or_make}
use gostalkd.Net.Tallied.{
  Below, Below-mono, Below-append, IsTallied, Quiet-IsTallied, IsUsed-same, IsWatched-same,
}

-- The tally is kept, for a connection that has been made.
abbrev pub Keeps : ℕ → World → World → Type 0
Keeps c v w = IsTallied v × (c < v.fresh_conn) → IsTallied w × (c < w.fresh_conn)

find_loop-Below :
    (at : ℕ → Tube) (n : ℕ) (ts : List ℕ) (name : Bytes) (t : ℕ)
    → Below n ts
    → find_loop at ts name ≡ some t
    → t < n
unfolding find_loop
find_loop-Below at n [] name t b e = absurd (cc)
find_loop-Below at n (x ∷ xs) name t b e = elim (Bool-cases (same_name (at x).name name)) [
  | inl s ↦ (let e' : x ≡ t = ground arith in omega (arith, b.0, e'))
  | inr s ↦ find_loop-Below at n xs name t b.1 (ground arith)
]

-- The tubes with one more, which nobody uses or watches.
abbrev added : Tubes → Tube → Tubes
added ts x = record ts {
  at = update ts.at ts.fresh x;
  fresh = ts.fresh + 1;
  tubes = record (ts.tubes) { items = ts.tubes.items ++ ts.fresh ∷ [] };
}

module _ (w : World) (js : Jobs) (x : Tube) (r : ℕ) (none_yet : numbers x ≡ (0, 0)) where
  abbrev with_tube : World
  with_tube = record w { jobs = js; tubes = added w.tubes x; readings = r }

  with_tube-IsTallied : IsTallied w → IsTallied with_tube
  with_tube-IsTallied h =
      let same =
        update-keeps numbers w.tubes.at w.tubes.fresh x
          (none_yet ∙ sym (h.blank w.tubes.fresh (omega arith))) in
      record {
        used = IsUsed-same w with_tube refl (λ t. ap (λ p. p.0) (same t)) (λ b. refl) h.used;
        watched =
            IsWatched-same w with_tube refl (λ t. ap (λ p. p.1) (same t)) (λ b. refl) h.watched;
        blank = λ t le. same t ∙ h.blank t (omega arith);
        known =
            Below-append (w.tubes.fresh + 1) w.tubes.tubes.items (w.tubes.fresh ∷ [])
              (Below-mono w.tubes.fresh (w.tubes.fresh + 1) w.tubes.tubes.items (omega arith)
                h.known)
              (omega arith, tt);
        using = λ b t e. omega (arith, h.using b t e);
        watching = λ b.
            Below-mono w.tubes.fresh (w.tubes.fresh + 1) (w.conn b).watch.items (omega arith)
              (h.watching b);
      }

abbrev pub IsKnown : World → ℕ → Type 0
IsKnown w t = IsTallied w → t < w.tubes.fresh

pub find_or_make-Keeps :
    (c : ℕ) (name : Bytes) (w : World)
    → Ends (λ out. Keeps c w out.1 × IsKnown out.1 out.0) (find_or_make name w)
unfolding find_or_make make_and_insert_tube
find_or_make-Keeps c name w = elim (Option-cases (find_loop w.tubes.at w.tubes.tubes.items name)) [
  | inl e ↦
      rw (find_or_make, tube_find_or_make, e)
        (ends (λ (h, lt). (with_tube-IsTallied w _ _ _ refl h, lt), λ h. omega arith))
  | inr (t, e) ↦
      rw (find_or_make, tube_find_or_make, e)
        (ends (
          λ (h, lt). (Quiet-IsTallied w _ (Quiet-same refl refl refl) h, lt),
          λ h. find_loop-Below w.tubes.at w.tubes.fresh w.tubes.tubes.items name t h.known e,
        ))
]
