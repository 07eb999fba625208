-- ===== src/Machine/Actions.antt =====
-- Actions on the memory, and their sequence.
use gostalkd.Prelude.{ℕ, ◌+◌, Bool, true, false, List, [], ◌∷◌, Option, none, some, update, add64}
use gostalkd.Core.Job.{Job, JobRec, Jobs}
use gostalkd.Core.Tube.{Tube, Stat}
use gostalkd.Core.Links.{Links}
use gostalkd.Machine.{World, Conn, File, Wal, Op, Op-discrete}
use mathlib.Core.Logic.{ite}

abbrev pub M : Type 0 → Type 0
M A = World → Option (A × World)

infixl 5 ◌>>=◌ ◌>>◌
abbrev pub ◌>>=◌ : {A B : Type 0} → M A → (A → M B) → M B
◌>>=◌ m f w = elim (m w) [ none ↦ none | some (a, w') ↦ f a w' ]

abbrev pub ◌>>◌ : {B : Type 0} → M (Unit {0}) → M B → M B
m >> k = m >>= λ _. k

abbrev pub return : {A : Type 0} → A → M A
return a w = some (a, w)

abbrev pub done : M (Unit {0})
done w = some (tt, w)

-- A panic, such as a read through a nil pointer.
abbrev pub panic : {A : Type 0} → M A
panic w = none

abbrev pub read : M World
read w = some (w, w)

abbrev pub modify : (World → World) → M (Unit {0})
modify f w = some (tt, f w)

abbrev pub when : Bool → M (Unit {0}) → M (Unit {0})
when true m = m
when false m = done

abbrev pub deref : Option ℕ → M ℕ
deref none = panic
deref (some a) = return a

abbrev pub lift : {A : Type 0} → Option A → M A
lift none = panic
lift (some a) = return a

-- what is done without a value, and with one
abbrev pub on_option {ℓ κ} : {A : Type ℓ} {B : Type κ} → Option A → B → (A → B) → B
on_option none m f = m
on_option (some a) m f = f a

-- time.Now().UnixNano()
abbrev pub now : M ℕ
now w = some (w.outside.clock w.readings, record w { readings = w.readings + 1 })

abbrev pub get_job : ℕ → M Job
get_job j w = some (w.jobs.at j, w)

abbrev pub change_job : ℕ → (Job → Job) → M (Unit {0})
change_job j f w =
    let js = w.jobs in
    some (tt, record w { jobs = record js { at = update js.at j (f (js.at j)) } })

abbrev pub change_rec : ℕ → (JobRec → JobRec) → M (Unit {0})
change_rec j f = change_job j (λ x. record x { r = f x.r })

abbrev pub change_links : (Links → Links) → M (Unit {0})
change_links f w =
    let js = w.jobs in some (tt, record w { jobs = record js { links = f js.links } })

abbrev pub change_jobs : (Jobs → Jobs) → M (Unit {0})
change_jobs f w = some (tt, record w { jobs = f w.jobs })

abbrev pub get_tube : ℕ → M Tube
get_tube t w = some (w.tubes.at t, w)

abbrev pub change_tube : ℕ → (Tube → Tube) → M (Unit {0})
change_tube t f w =
    let ts = w.tubes in
    some (tt, record w { tubes = record ts { at = update ts.at t (f (ts.at t)) } })

abbrev pub change_tube_stat : ℕ → (Stat → Stat) → M (Unit {0})
change_tube_stat t f = change_tube t (λ x. record x { stat = f x.stat })

abbrev pub change_stat : (Stat → Stat) → M (Unit {0})
change_stat f w = some (tt, record w { stat = f w.stat })

abbrev pub get_conn : ℕ → M Conn
get_conn c w = some (w.conn c, w)

abbrev pub change_conn : ℕ → (Conn → Conn) → M (Unit {0})
change_conn c f w = some (tt, record w { conn = update w.conn c (f (w.conn c)) })

abbrev pub get_file : ℕ → M File
get_file a w = some (w.file a, w)

abbrev pub change_file : ℕ → (File → File) → M (Unit {0})
change_file a f w = some (tt, record w { file = update w.file a (f (w.file a)) })

abbrev pub get_wal : M Wal
get_wal w = some (w.wal, w)

abbrev pub change_wal : (Wal → Wal) → M (Unit {0})
change_wal f w = some (tt, record w { wal = f w.wal })

-- utils.OpCt[op]++
abbrev pub count_op : Op → M (Unit {0})
count_op op w =
    some (tt, record w { op_ct = λ o. ite (Op-discrete o op) (add64 (w.op_ct o) 1) (w.op_ct o) })

-- The body for each item of a list, in turn.
unfoldable pub for_each : {A : Type 0} → List A → (A → M (Unit {0})) → M (Unit {0})
for_each [] f = done
for_each (x ∷ xs) f = do f x; for_each xs f

-- The loop `for test { body }`, which runs while the test gives a value; without enough fuel it
-- is taken not to end.
unfoldable pub while_some : {A : Type 0} → ℕ → M (Option A) → (A → M (Unit {0})) → M (Unit {0})
while_some ℕ.zero test body = panic
while_some (ℕ.suc fuel) test body = do
  x ← test
  elim x [ none ↦ done | some a ↦ body a >>= λ _. while_some fuel test body ]
