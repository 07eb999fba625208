-- ===== src/Net/Tallied/Tubes.antt =====
-- What the handlers of use, watch and ignore do with their tubes keeps the tally.
use gostalkd.Prelude.{
  add64, sub64, ℕ, suc, ◌≤◌, ◌<◌, ◌≡◌, refl, ◌∙◌, sym, inl, inr, false, [], ◌∷◌, Option, some,
  Yields, yields, Option-cases, Bool-cases, Bytes, ltb, ◌==◌, update, length, take, drop, get_elem?,
  arith,
}
use gostalkd.Structure.Ms
use gostalkd.Structure.Ms.{Ms}
use gostalkd.Core.Tube.{Tube, find_loop}
use gostalkd.Machine.{World, Conn}
use gostalkd.Machine.Actions.{◌>>=◌}
use gostalkd.Machine.Frame.{Ends, stops, ends, numbers, update-keeps}
use gostalkd.Machine.Within.{Within}
use gostalkd.Net.Conn.{address_eq}
use gostalkd.Net.Watch.{watch_append, watch_remove, on_watch, on_ignore, watching}
use gostalkd.Net.Commands.Tubes.{use_tube, watch_tube, ignore_tube}
use gostalkd.Net.Commands.Tubes.Counts.{
  use_tube-IsUsed, watch_tube-IsWatched, ignore_tube-IsWatched, IsUsed,
}
use gostalkd.Net.Watch.Counts.{IsWatched}
use gostalkd.Net.Tallied.{
  Below, Below-append, Below-take, Below-drop, Below-get_elem?, Below-same, IsTallied, IsUsed-same,
  IsWatched-same,
}
use gostalkd.Net.Tallied.Made.{Keeps, IsKnown}

-- Both parts of what is known of a result.
both :
    {A : Type 0} {P Q : A × World → Type 0} {o : Option (A × World)}
    → Yields P o
    → Ends Q o
    → Ends (λ out. P out × Q out) o
both (yields p) (ends q) = ends (p, q)

value_of : {A : Type 0} {P : A → Type 0} {a : A} → Yields P (some a) → P a
value_of (yields p) = p

-- The memory after a connection has left a tube for another.
module _ (w : World) (c t old : ℕ) where
  abbrev left : ℕ → Tube
  left =
      let at = w.tubes.at in
      update at old (record (at old) { using_ct = sub64 (at old).using_ct 1 })

  abbrev moved : World
  moved = record w {
    tubes = record (w.tubes) {
      at = update left t (record (left t) { using_ct = add64 (left t).using_ct 1 });
    };
    conn = update w.conn c (record (w.conn c) { use_tube = some t });
  }

  moved-IsTallied :
      IsTallied w → old < w.tubes.fresh → t < w.tubes.fresh → IsUsed moved → IsTallied moved
  moved-IsTallied h old_known known used =
      let same_items =
        update-keeps (λ (x : Conn). x.watch.items) w.conn c
          (record (w.conn c) { use_tube = some t }) refl in
      record {
        used = used;
        watched =
            IsWatched-same w moved refl
              (λ a.
                update-keeps (λ (x : Tube). x.watching_ct) left t
                  (record (left t) { using_ct = add64 (left t).using_ct 1 }) refl a
                ∙ update-keeps (λ (x : Tube). x.watching_ct) w.tubes.at old
                    (record (w.tubes.at old) { using_ct = sub64 (w.tubes.at old).using_ct 1 }) refl
                    a)
              same_items h.watched;
        blank = λ a le.
            let p : (a == t) ≡ false = ground arith in
            let q : (a == old) ≡ false = ground arith in rw (p, q) (h.blank a le);
        known = h.known;
        using = λ b a e. elim (Bool-cases (b == c)) [
          | inl s ↦ (let e' = rw s at e in let q : t ≡ a = ground arith in omega (arith, q))
          | inr s ↦ h.using b a (rw s at e)
        ];
        watching = λ b. Below-same refl (sym (same_items b)) (h.watching b);
      }

pub use_tube-Keeps :
    (c t : ℕ) (w : World) → IsKnown w t → Ends (λ out. Keeps c w out.1) (use_tube c t w)
unfolding use_tube
use_tube-Keeps c t w known = elim (Option-cases (w.conn c).use_tube) [
  | inl e ↦ rw (use_tube, e) stops
  | inr (old, e) ↦
      rw (use_tube, e)
        (ends λ (h, lt).
          let used = rw (use_tube, e) at (use_tube-IsUsed w c t old lt e h.used) in
          (moved-IsTallied w c t old h (h.using c old e) (known h) (value_of used).1, lt))
]

-- The memory with another list of watched tubes for a connection, and other tubes.
module _ (w : World) (c : ℕ) (m : Ms ℕ) (at : ℕ → Tube) where
  abbrev rewatched : World
  rewatched = record w {
    conn = update w.conn c (record (w.conn c) { watch = m });
    tubes = record (w.tubes) { at = at };
  }

  rewatched-IsTallied :
      IsTallied w
      → ((a : ℕ) → (at a).using_ct ≡ (w.tubes.at a).using_ct)
      → ((a : ℕ) → w.tubes.fresh ≤ a → numbers (at a) ≡ numbers (w.tubes.at a))
      → Below w.tubes.fresh m.items
      → IsWatched rewatched
      → IsTallied rewatched
  rewatched-IsTallied h ct far below watched =
      let same =
        update-keeps (λ (x : Conn). x.use_tube) w.conn c (record (w.conn c) { watch = m }) refl in
      record {
        used = IsUsed-same w rewatched refl ct same h.used;
        watched = watched;
        blank = λ a le. far a le ∙ h.blank a le;
        known = h.known;
        using = λ b a e. h.using b a (sym (same b) ∙ e);
        watching =
            λ b. elim (Bool-cases (b == c)) [ inl s ↦ rw s below | inr s ↦ rw s (h.watching b) ];
      }

-- A change of a tube that is known.
module _ (w : World) (y : ℕ) (k : ℕ) where
  abbrev renumbered : ℕ → Tube
  renumbered = update w.tubes.at y (record (w.tubes.at y) { watching_ct = k })

  renumbered-using : (a : ℕ) → (renumbered a).using_ct ≡ (w.tubes.at a).using_ct
  renumbered-using =
      update-keeps (λ (x : Tube). x.using_ct) w.tubes.at y
        (record (w.tubes.at y) { watching_ct = k }) refl

  renumbered-far :
      y < w.tubes.fresh
      → (a : ℕ) → w.tubes.fresh ≤ a
      → numbers (renumbered a) ≡ numbers (w.tubes.at a)
  renumbered-far known a le = let q : (a == y) ≡ false = ground arith in rw q

pub watch_tube-Keeps :
    (c t : ℕ) (w : World) → IsKnown w t → Ends (λ out. Keeps c w out.1) (watch_tube c t w)
unfolding watch_tube watch_append Ms.append on_watch
watch_tube-Keeps c t w known = elim (Bool-cases (Ms.contains (w.conn c).watch.items t)) [
  | inl e ↦ rw (watch_tube, e) (ends λ h. h)
  | inr e ↦
      rw (watch_tube, e)
        (ends λ (h, lt).
          let watched = rw (watch_tube, e) at (watch_tube-IsWatched w c lt t h.watched) in
          let k = add64 (w.tubes.at t).watching_ct 1 in
          (
            rewatched-IsTallied w c _ _ h (renumbered-using w t k) (renumbered-far w t k (known h))
                (Below-append w.tubes.fresh (w.conn c).watch.items (t ∷ []) (h.watching c)
                  (known h, tt))
                (value_of watched),
            lt,
          ))
]

-- The list without the item that Remove finds, and the tubes behind it.
watch_remove-IsTallied :
    (c t : ℕ) (w : World)
    → IsTallied w
    → let (found, m, at) = Ms.remove watching (w.conn c).watch t w.tubes.at in
      (IsWatched (rewatched w c m at) → IsTallied (rewatched w c m at))
unfolding Ms.remove Ms.delete on_ignore watching
watch_remove-IsTallied c t w h =
    let items = (w.conn c).watch.items in
    elim (Option-cases (Ms.find_index items t)) [
      | inl e ↦
          rw (Ms.remove, e)
            (rewatched-IsTallied w c _ _ h (λ a. refl) (λ a le. refl) (h.watching c))
      | inr (i, e) ↦ elim (Option-cases (get_elem? items i)) [
        | inl g ↦
            rw (Ms.remove, e, Ms.delete, g)
              (rewatched-IsTallied w c _ _ h (λ a. refl) (λ a le. refl) (h.watching c))
        | inr (y, g) ↦
            let k = sub64 (w.tubes.at y).watching_ct 1 in
            let y_known = Below-get_elem? w.tubes.fresh i y items (h.watching c) g in
            rw (Ms.remove, e, Ms.delete, g)
              (rewatched-IsTallied w c _ _ h (renumbered-using w y k) (renumbered-far w y k y_known)
                (Below-append w.tubes.fresh (take i items) (drop (suc i) items)
                  (Below-take w.tubes.fresh i items (h.watching c))
                  (Below-drop w.tubes.fresh (suc i) items (h.watching c))))
      ]
    ]

pub ignore_tube-Keeps : (c : ℕ) (name : Bytes) → Within (Keeps c) (ignore_tube c name)
unfolding ignore_tube watch_remove
ignore_tube-Keeps c name = record {
  at = λ w. elim (Option-cases (find_loop w.tubes.at (w.conn c).watch.items name)) [
    | inl e ↦ rw (ignore_tube, ◌>>=◌, e) (ends λ h. h)
    | inr (t, e) ↦ elim (Bool-cases (ltb (length (w.conn c).watch.items) 2)) [
      | inl s ↦ rw (ignore_tube, ◌>>=◌, e, s) (ends λ h. h)
      | inr s ↦
          rw (ignore_tube, ◌>>=◌, e, s)
            (ends λ (h, lt).
              let watched =
                rw (ignore_tube, ◌>>=◌, e, s) at (ignore_tube-IsWatched w c lt name h.watched) in
              (watch_remove-IsTallied c t w h (value_of watched), lt))
    ]
  ];
}
