-- ===== src/Machine/Within.antt =====
-- Relations between the memory before an action and after it, for any relation that is transitive
-- and holds where an action is quiet.
use gostalkd.Prelude.{Bool, true, false, Option, none, some, if◌then◌else◌}
use gostalkd.Machine.{World}
use gostalkd.Machine.Actions.{M, ◌>>=◌}
use gostalkd.Machine.Frame.{Quiet, Quiets, Ends, stops, ends}

-- The action panics, or takes the memory to a related one.
pub record Within {A : Type 0} (R : World → World → Type 0) (m : M A) : Type 0 where
  pub at : (w : World) → Ends (λ out. R w out.1) (m w)

pub Ends-mono :
    {A : Type 0} {P Q : A × World → Type 0} {o : Option (A × World)}
    → Ends P o
    → ((a : A) (w : World) → P (a, w) → Q (a, w))
    → Ends Q o
Ends-mono stops k = stops
Ends-mono (ends {a} {w} p) k = ends (k a w p)

-- What holds after an action is what the next one starts from.
module _ {A B : Type 0} {P : A × World → Type 0} {Q : B × World → Type 0} (f : A → M B) where
  then_result :
      (o : Option (A × World))
      → Ends P o
      → ((a : A) (v : World) → P (a, v) → Ends Q (f a v))
      → Ends Q (elim o [ none ↦ none | some (a, v) ↦ f a v ])
  then_result o stops k = stops
  then_result o (ends {a} {w} p) k = k a w p

  pub Ends-bind :
      (m : M A) (w : World)
      → Ends P (m w)
      → ((a : A) (v : World) → P (a, v) → Ends Q (f a v))
      → Ends Q ((m >>= f) w)
  Ends-bind m w p k = then_result (m w) p k

module _ (R : World → World → Type 0) (sub : (v w : World) → Quiet v w → R v w)
    (trans : (u v w : World) → R u v → R v w → R u w) where
  pub Within-quiet : {A : Type 0} {m : M A} → Quiets m → Within R m
  Within-quiet q = record { at = λ w. Ends-mono (q.at w) (λ a v. sub w v) }

  pub Within-bind :
      {A B : Type 0} {m : M A} {f : A → M B}
      → Within R m
      → ((a : A) → Within R (f a))
      → Within R (m >>= f)
  Within-bind {m} {f} p k = record {
    at = λ w. Ends-bind f m w (p.at w) λ a v r. Ends-mono ((k a).at v) (λ b u. trans w v u r);
  }

pub Within-test :
    {A : Type 0} {R : World → World → Type 0} (b : Bool) {m n : M A}
    → Within R m
    → Within R n
    → Within R (if b then m else n)
Within-test true p q = p
Within-test false p q = q
