-- ===== src/Machine/Laws.antt =====
-- Reasoning on sequences of actions, one action at a time.
use gostalkd.Prelude.{◌≡◌, refl, ◌⊎◌, inl, inr, Bytes, Option, none, some, Yields, yields}
use gostalkd.Machine.{World, Receipt, read_failed, read_eof, read_bytes}
use gostalkd.Machine.Actions.{M, ◌>>=◌}

module _ {A B : Type 0} (m : M A) (f : A → M B) (w : World) where
  after_result :
      {P : A × World → Type 0} {Q : B × World → Type 0} {o : Option (A × World)}
      → m w ≡ o
      → Yields P o
      → ((out : A × World) → P out → Yields Q (f out.0 out.1))
      → Yields Q ((m >>= f) w)
  after_result e (yields p) k = rw (◌>>=◌, e) (k _ p)

  -- What holds after an action is what the next action starts from.
  pub after :
      {P : A × World → Type 0} {Q : B × World → Type 0}
      → Yields P (m w)
      → ((out : A × World) → P out → Yields Q (f out.0 out.1))
      → Yields Q ((m >>= f) w)
  after y k = after_result refl y k

module _ {A B : Type 0} where
  -- Sequences with the same first action agree if they agree behind it.
  pub bind_ext :
      (m : M A) (f g : A → M B) (w : World)
      → ((a : A) (w' : World) → f a w' ≡ g a w')
      → (m >>= f) w ≡ (m >>= g) w
  bind_ext m f g w h = result_ext (m w)
    where
      result_ext :
          (o : Option (A × World))
          → (elim o [ none ↦ none | some (a, w') ↦ f a w' ])
            ≡ (elim o [ none ↦ none | some (a, w') ↦ g a w' ])
      result_ext none = refl
      result_ext (some (a, w')) = h a w'

pub Receipt-cases :
    (r : Receipt) → (r ≡ read_failed) ⊎ ((r ≡ read_eof) ⊎ ((bs : Bytes) × (r ≡ read_bytes bs)))
Receipt-cases read_failed = inl refl
Receipt-cases read_eof = inr (inl refl)
Receipt-cases (read_bytes bs) = inr (inr (bs, refl))
