-- ===== src/Core/Job.antt =====
-- core/job.go and the types of model/ that it works on: jobs in a store by address, the map of all
-- jobs by id, the orders of the two heaps, and the states of a job.
-- The fields Prev and Next stand in Links; HtNext and Pad are never read.
pub mod Order
pub mod Store
mod Tests
use gostalkd.Prelude.{
  ℕ, ◌+◌, ◌-◌, ◌≡◌, Bool, true, false, List, [], Option, none, some, Bytes, ltb, leb, ◌==◌,
  if◌then◌else◌, codes, add64, sub64, add32, mod64, slt, update,
}
use gostalkd.Core.Links.{Links, list_reset, list_insert}

-- The states of constant.go; `other` is any byte that is none of them.
pub data JobState : Type 0 where
  invalid ready reserved buried delayed copied : JobState
  other : ℕ → JobState

-- model.JobRec
pub record JobRec : Type 0 where
  pub id : ℕ
  pub pri : ℕ
  pub delay : ℕ
  pub ttr : ℕ
  pub body_size : ℕ
  pub create_at : ℕ
  pub deadline_at : ℕ
  pub reserve_ct : ℕ
  pub timeout_ct : ℕ
  pub release_ct : ℕ
  pub bury_ct : ℕ
  pub kick_ct : ℕ
  pub state : JobState

-- model.Job; a pointer is an address, nil is `none`
pub record Job : Type 0 where
  pub r : JobRec
  pub tube : Option ℕ
  pub heap_index : ℕ
  pub file : Option ℕ
  pub reservoir : Option ℕ
  pub wal_resv : ℕ
  pub wal_used : ℕ
  pub body : Bytes

-- The jobs in memory: what stands at each address, the addresses given out so far, and the
-- package variables allJobs, nextJobId and utils.AllJobsUsed.
pub record Jobs : Type 0 where
  pub at : ℕ → Job
  pub links : Links
  pub fresh : ℕ
  pub all_jobs : ℕ → Option ℕ
  pub next_job_id : ℕ
  pub all_jobs_used : ℕ

abbrev pub zero_rec : JobRec
zero_rec = record {
  id = 0;
  pri = 0;
  delay = 0;
  ttr = 0;
  body_size = 0;
  create_at = 0;
  deadline_at = 0;
  reserve_ct = 0;
  timeout_ct = 0;
  release_ct = 0;
  bury_ct = 0;
  kick_ct = 0;
  state = invalid;
}

-- NewJob at the time `now`; without a body size that is 0. The result is the new job's address.
unfoldable pub new_job : Jobs → ℕ → ℕ → ℕ × Jobs
unfolding list_reset
new_job js now body_size =
    let a = js.fresh in
    let r : JobRec = record zero_rec { create_at = now; body_size = body_size } in
    let j : Job = record {
      r = r;
      tube = none;
      heap_index = 0;
      file = none;
      reservoir = none;
      wal_resv = 0;
      wal_used = 0;
      body = [];
    } in
    (a, record js { at = update js.at a j; links = list_reset js.links a; fresh = a + 1 })

-- JobStore
unfoldable pub job_store : Jobs → ℕ → Jobs
job_store js a = record js {
  all_jobs = update js.all_jobs (js.at a).r.id (some a);
  all_jobs_used = add64 js.all_jobs_used 1;
}

-- The id of a new job, and the next one: the branch of MakeJobWithID.
choose_id : Option ℕ → ℕ → ℕ × ℕ
choose_id (some id) next = (id, if leb next id then add64 id 1 else next)
choose_id none next = (next, add64 next 1)

-- MakeJobWithID
unfoldable pub make_job_with_id : Jobs → ℕ → ℕ → ℕ → ℕ → ℕ → Option ℕ → Option ℕ → ℕ × Jobs
unfolding new_job choose_id job_store
make_job_with_id js now pri delay ttr body_size tube given =
    let (a, js₁) = new_job js now body_size in
    let (id, next) = choose_id given js₁.next_job_id in
    let old = js₁.at a in
    let r : JobRec = record (old.r) { id = id; pri = pri; delay = delay; ttr = ttr } in
    let named : Jobs = record js₁ {
      at = update js₁.at a (record old { r = r });
      next_job_id = next;
    } in
    let stored = job_store named a in
    (a, record stored { at = update stored.at a (record old { r = r; tube = tube }) })

-- JobFind
unfoldable pub job_find : Jobs → ℕ → Option ℕ
job_find js id = js.all_jobs id

-- JobCopy; the copy is a new object
unfoldable pub job_copy : Jobs → Option ℕ → Option ℕ × Jobs
unfolding list_reset
job_copy js none = (none, js)
job_copy js (some j) =
    let a = js.fresh in
    let old = js.at j in
    let r : JobRec = record (old.r) { state = copied } in
    let new : Job = record old { r = r; file = none } in
    (some a, record js { at = update js.at a new; links = list_reset js.links a; fresh = a + 1 })

abbrev pub is_copy : JobState → Bool
is_copy copied = true
is_copy _ = false

-- JobFree
unfoldable pub job_free : Jobs → Option ℕ → Jobs
job_free js none = js
job_free js (some j) =
    let gone : Jobs = record js { at = update js.at j (record (js.at j) { tube = none }) } in
    if is_copy (js.at j).r.state
    then gone
    else record gone { all_jobs = update gone.all_jobs (js.at j).r.id none }

-- JobState and GetJobState
unfoldable pub state_name : JobState → Bytes
state_name ready = codes "ready"
state_name reserved = codes "reserved"
state_name buried = codes "buried"
state_name delayed = codes "delayed"
state_name _ = codes "invalid"

-- JobSetPos
unfoldable pub job_set_pos : Jobs → ℕ → ℕ → Jobs
job_set_pos js j pos = record js { at = update js.at j (record (js.at j) { heap_index = pos }) }

-- JobPriLess, on the jobs at two addresses
unfoldable pub job_pri_less : (ℕ → Job) → ℕ → ℕ → Bool
job_pri_less at ja jb =
    let a = (at ja).r in
    let b = (at jb).r in
    if ltb a.pri b.pri then true else if ltb b.pri a.pri then false else ltb a.id b.id

-- JobDelayLess
unfoldable pub job_delay_less : (ℕ → Job) → ℕ → ℕ → Bool
job_delay_less at ja jb =
    let a = (at ja).r in
    let b = (at jb).r in
    if slt a.deadline_at b.deadline_at
    then true
    else if slt b.deadline_at a.deadline_at
    then false
    else ltb a.id b.id
