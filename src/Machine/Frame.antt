-- ===== src/Machine/Frame.antt =====
-- What actions leave as it is: the command lines of the connections, the tubes that they use and
-- watch, and the tubes' numbers of users and watchers.
use gostalkd.Prelude.{
  ℕ, zero, suc, ◌≡◌, refl, ◌∙◌, ap, Bool, true, false, List, [], ◌∷◌, Option, none, some, Bytes,
  if◌then◌else◌, ◌==◌, update, Bool-cases, inl, inr, arith,
}
use gostalkd.Structure.Ms.{Ms}
use gostalkd.Core.Tube.{Tube, Tubes, Stat}
use gostalkd.Core.Job.{Job, Jobs}
use gostalkd.Core.Links.{Links}
use gostalkd.Machine.{World, Conn, File, Wal, Op}
use gostalkd.Machine.Actions.{
  M, ◌>>=◌, return, done, panic, read, modify, when, deref, lift, now, get_job, change_job,
  change_links, change_jobs, get_tube, change_tube, change_stat, get_conn, change_conn, get_file,
  change_file, get_wal, change_wal, for_each, while_some, count_op, on_option,
}

-- What of a connection is kept.
abbrev pub line : Conn → Bytes × ℕ × ℕ × Option ℕ × Ms ℕ
line x = (x.cmd, x.cmd_read, x.cmd_len, x.use_tube, x.watch)

-- What of a tube is kept.
abbrev pub numbers : Tube → ℕ × ℕ
numbers t = (t.using_ct, t.watching_ct)

pub record Quiet (v w : World) : Type 0 where
  pub lines : (c : ℕ) → line (w.conn c) ≡ line (v.conn c)
  pub counts : (t : ℕ) → numbers (w.tubes.at t) ≡ numbers (v.tubes.at t)
  pub known : w.tubes.tubes ≡ v.tubes.tubes
  pub fresh_tube : w.tubes.fresh ≡ v.tubes.fresh
  pub fresh_conn : w.fresh_conn ≡ v.fresh_conn

pub Quiet-refl : (w : World) → Quiet w w
Quiet-refl w = record {
  lines = λ c. refl;
  counts = λ t. refl;
  known = refl;
  fresh_tube = refl;
  fresh_conn = refl;
}

pub Quiet-trans : {u v w : World} → Quiet u v → Quiet v w → Quiet u w
Quiet-trans p q = record {
  lines = λ c. q.lines c ∙ p.lines c;
  counts = λ t. q.counts t ∙ p.counts t;
  known = q.known ∙ p.known;
  fresh_tube = q.fresh_tube ∙ p.fresh_tube;
  fresh_conn = q.fresh_conn ∙ p.fresh_conn;
}

-- The action panics, or ends as said.
pub data Ends {A : Type 0} (P : A × World → Type 0) : Option (A × World) → Type 0 where
  stops : Ends P none
  ends : {a : A} {w : World} → P (a, w) → Ends P (some (a, w))

pub record Quiets {A : Type 0} (m : M A) : Type 0 where
  pub at : (w : World) → Ends (λ out. Quiet w out.1) (m w)

abbrev pub SameLine : (Conn → Conn) → Type 0
SameLine f = (x : Conn) → line (f x) ≡ line x

abbrev pub SameNumbers : (Tube → Tube) → Type 0
SameNumbers f = (x : Tube) → numbers (f x) ≡ numbers x

-- An update of a store at an address keeps of each value what it keeps of that one.
pub update-keeps {ℓ} :
    {A : Type 0} {B : Type ℓ} (g : A → B) (at : ℕ → A) (c : ℕ) (x : A)
    → g x ≡ g (at c)
    → (a : ℕ) → g (update at c x a) ≡ g (at a)
update-keeps g at c x h a = elim (Bool-cases (a == c)) [
  | inl e ↦ (let q : c ≡ a = ground arith in rw e (h ∙ ap (λ k. g (at k)) q))
  | inr e ↦ rw e
]

-- What changes nothing of this is quiet.
pub Quiet-same :
    {v w : World} → w.conn ≡ v.conn → w.tubes ≡ v.tubes → w.fresh_conn ≡ v.fresh_conn → Quiet v w
Quiet-same p q r = record {
  lines = λ c. ap (λ (at : ℕ → Conn). line (at c)) p;
  counts = λ t. ap (λ (ts : Tubes). numbers (ts.at t)) q;
  known = ap (λ (ts : Tubes). ts.tubes) q;
  fresh_tube = ap (λ (ts : Tubes). ts.fresh) q;
  fresh_conn = r;
}

-- One rule for each action.
module _ {A : Type 0} where
  pub Quiets-return : (a : A) → Quiets (return a)
  Quiets-return a = record { at = λ w. ends (Quiet-refl w) }

  pub Quiets-panic : Quiets (panic {A = A})
  Quiets-panic = record { at = λ w. stops }

  pub Quiets-lift : (o : Option A) → Quiets (lift o)
  Quiets-lift none = Quiets-panic
  Quiets-lift (some a) = Quiets-return a

  pub Quiets-gets : (f : World → A) → Quiets (λ w. some (f w, w))
  Quiets-gets f = record { at = λ w. ends (Quiet-refl w) }

  pub Quiets-test : (b : Bool) {m n : M A} → Quiets m → Quiets n → Quiets (if b then m else n)
  Quiets-test true p q = p
  Quiets-test false p q = q

  pub Quiets-option :
      {B : Type 0} (o : Option B) (m : M A) (f : B → M A)
      → Quiets m
      → ((b : B) → Quiets (f b))
      → Quiets (on_option o m f)
  Quiets-option none m f p k = p
  Quiets-option (some b) m f p k = k b

  pub Ends-elim {ℓ} :
      {P : A × World → Type 0} {B : Type ℓ} (o : Option B) {m : Option (A × World)}
      {f : B → Option (A × World)}
      → Ends P m
      → ((b : B) → Ends P (f b))
      → Ends P (elim o [ none ↦ m | some b ↦ f b ])
  Ends-elim none p k = p
  Ends-elim (some b) p k = k b

pub Quiets-done : Quiets done
Quiets-done = record { at = λ w. ends (Quiet-refl w) }

pub Quiets-deref : (o : Option ℕ) → Quiets (deref o)
Quiets-deref none = Quiets-panic
Quiets-deref (some a) = Quiets-return a

pub Quiets-when : (b : Bool) (m : M (Unit {0})) → Quiets m → Quiets (when b m)
Quiets-when true m p = p
Quiets-when false m p = Quiets-done

pub Quiets-modify : (f : World → World) → ((w : World) → Quiet w (f w)) → Quiets (modify f)
Quiets-modify f h = record { at = λ w. ends (h w) }

pub Quiet-conn :
    (w : World) (c : ℕ) (x : Conn)
    → line x ≡ line (w.conn c)
    → Quiet w (record w { conn = update w.conn c x })
Quiet-conn w c x h = record {
  lines = update-keeps line w.conn c x h;
  counts = λ t. refl;
  known = refl;
  fresh_tube = refl;
  fresh_conn = refl;
}

pub Quiets-change_conn : (c : ℕ) (f : Conn → Conn) → SameLine f → Quiets (change_conn c f)
Quiets-change_conn c f h = record { at = λ w. ends (Quiet-conn w c (f (w.conn c)) (h (w.conn c))) }

pub Quiets-change_tube : (t : ℕ) (f : Tube → Tube) → SameNumbers f → Quiets (change_tube t f)
Quiets-change_tube t f h = record {
  at = λ w. ends record {
    lines = λ c. refl;
    counts = update-keeps numbers w.tubes.at t (f (w.tubes.at t)) (h (w.tubes.at t));
    known = refl;
    fresh_tube = refl;
    fresh_conn = refl;
  };
}

pub Quiets-now : Quiets now
Quiets-now = record { at = λ w. ends (Quiet-same refl refl refl) }

pub Quiets-get_conn : (c : ℕ) → Quiets (get_conn c)
Quiets-get_conn c = Quiets-gets _

pub Quiets-get_job : (j : ℕ) → Quiets (get_job j)
Quiets-get_job j = Quiets-gets _

pub Quiets-get_tube : (t : ℕ) → Quiets (get_tube t)
Quiets-get_tube t = Quiets-gets _

pub Quiets-get_file : (f : ℕ) → Quiets (get_file f)
Quiets-get_file f = Quiets-gets _

pub Quiets-get_wal : Quiets get_wal
Quiets-get_wal = Quiets-gets _

pub Quiets-read : Quiets read
Quiets-read = Quiets-gets _

pub Quiets-change_job : (j : ℕ) (f : Job → Job) → Quiets (change_job j f)
Quiets-change_job j f = record { at = λ w. ends (Quiet-same refl refl refl) }

pub Quiets-change_links : (f : Links → Links) → Quiets (change_links f)
Quiets-change_links f = record { at = λ w. ends (Quiet-same refl refl refl) }

pub Quiets-change_jobs : (f : Jobs → Jobs) → Quiets (change_jobs f)
Quiets-change_jobs f = record { at = λ w. ends (Quiet-same refl refl refl) }

pub Quiets-change_stat : (f : Stat → Stat) → Quiets (change_stat f)
Quiets-change_stat f = record { at = λ w. ends (Quiet-same refl refl refl) }

pub Quiets-change_file : (a : ℕ) (f : File → File) → Quiets (change_file a f)
Quiets-change_file a f = record { at = λ w. ends (Quiet-same refl refl refl) }

pub Quiets-change_wal : (f : Wal → Wal) → Quiets (change_wal f)
Quiets-change_wal f = record { at = λ w. ends (Quiet-same refl refl refl) }

pub Quiets-count_op : (op : Op) → Quiets (count_op op)
Quiets-count_op op = record { at = λ w. ends (Quiet-same refl refl refl) }

then_result :
    {B : Type 0} {w v : World} (o : Option (B × World))
    → Quiet w v
    → Ends (λ out. Quiet v out.1) o
    → Ends (λ out. Quiet w out.1) o
then_result o q stops = stops
then_result o q (ends p) = ends (Quiet-trans q p)

module _ {A B : Type 0} where
  bind_result :
      {w : World} {f : A → M B} (o : Option (A × World))
      → Ends (λ out. Quiet w out.1) o
      → ((a : A) → Quiets (f a))
      → Ends (λ out. Quiet w out.1) (elim o [ none ↦ none | some (a, w') ↦ f a w' ])
  bind_result o stops k = stops
  bind_result {f} (some (a, v)) (ends q) k = then_result (f a v) q ((k a).at v)

  pub Quiets-bind : {m : M A} {f : A → M B} → Quiets m → ((a : A) → Quiets (f a)) → Quiets (m >>= f)
  Quiets-bind {m} p k = record { at = λ w. bind_result (m w) (p.at w) k }

pub Quiets-for_each :
    {A : Type 0} (l : List A) (f : A → M (Unit {0}))
    → ((a : A) → Quiets (f a))
    → Quiets (for_each l f)
unfolding for_each
Quiets-for_each [] f k = Quiets-done
Quiets-for_each (x ∷ l) f k = Quiets-bind (k x) (λ _. Quiets-for_each l f k)

pub Quiets-while_some :
    {A : Type 0} (fuel : ℕ) (test : M (Option A)) (body : A → M (Unit {0}))
    → Quiets test
    → ((a : A) → Quiets (body a))
    → Quiets (while_some fuel test body)
unfolding while_some
Quiets-while_some {A} zero test body p k = Quiets-panic
Quiets-while_some {A} (suc fuel) test body p k =
    Quiets-bind p λ o. more o (λ a. Quiets-bind (k a) λ _. Quiets-while_some fuel test body p k)
  where
    more :
        (o : Option A)
        → ((a : A) → Quiets (body a >>= λ _. while_some fuel test body))
        → Quiets (elim o as (λ _. M (Unit {0})) [
          | none ↦ done
          | some a ↦ body a >>= λ _. while_some fuel test body
        ])
    more none h = Quiets-done
    more (some a) h = h a

pub ruleset quiet = (
  Quiets-bind, Quiets-return, Quiets-done, Quiets-panic, Quiets-lift, Quiets-test, Quiets-option,
  Quiets-deref, Quiets-when, Quiets-modify, Quiets-change_conn, Quiets-change_tube, Quiets-now,
  Quiets-get_conn, Quiets-get_job, Quiets-get_tube, Quiets-get_file, Quiets-get_wal, Quiets-read,
  Quiets-change_job, Quiets-change_links, Quiets-change_jobs, Quiets-change_stat,
  Quiets-change_file, Quiets-change_wal, Quiets-count_op, Quiets-for_each, Quiets-while_some,
  Quiet-same, refl,
)
