-- ===== src/Core/Job/Store.antt =====
-- The map of all jobs: what MakeJobWithID, JobCopy and JobFree keep.
use gostalkd.Prelude.{
  ℕ, ◌+◌, ◌<◌, ◌≡◌, ◌≢◌, refl, false, Option, none, some, arith, ◌==◌, if◌then◌else◌, mod64,
  Option-cases, inl, inr,
}
use gostalkd.Core.Links.Rings.{IsAlone}
use gostalkd.Core.Job.{
  Jobs, JobState, copied, make_job_with_id, job_find, job_copy, job_free, is_copy,
}

-- Each id leads to the job of that id, which is in memory; the next id is above them all.
pub record IsStore (js : Jobs) : Type 0 where
  pub ids : (id a : ℕ) → js.all_jobs id ≡ some a → (js.at a).r.id ≡ id
  pub memory : (id a : ℕ) → js.all_jobs id ≡ some a → a < js.fresh
  pub below : (id a : ℕ) → js.all_jobs id ≡ some a → id < js.next_job_id
  pub fits : js.next_job_id < mod64

-- What the new job is.
pub record Made (js : Jobs) (now pri delay ttr body_size : ℕ) (tube : Option ℕ) (id : ℕ)
    (out : ℕ × Jobs) : Type 0 where
  pub address : out.0 ≡ js.fresh
  pub found : job_find out.1 id ≡ some out.0
  pub others : (i : ℕ) → i ≢ id → job_find out.1 i ≡ job_find js i
  pub kept : (a : ℕ) → a ≢ js.fresh → out.1.at a ≡ js.at a
  pub alone : IsAlone out.1.links out.0
  pub has_id : (out.1.at out.0).r.id ≡ id
  pub has_pri : (out.1.at out.0).r.pri ≡ pri
  pub has_delay : (out.1.at out.0).r.delay ≡ delay
  pub has_ttr : (out.1.at out.0).r.ttr ≡ ttr
  pub has_size : (out.1.at out.0).r.body_size ≡ body_size
  pub has_time : (out.1.at out.0).r.create_at ≡ now
  pub has_tube : (out.1.at out.0).tube ≡ tube

module _ (js : Jobs) (now pri delay ttr body_size : ℕ) (tube : Option ℕ) where
  -- On a well-formed store whose next id is below 2 ^ 64 - 1, MakeJobWithID without an id gives the
  -- job that id, which no job has, stores it under it, changes no other job, and keeps the store well
  -- formed.
  pub make_job_with_id-next :
      IsStore js
      → js.next_job_id + 1 < mod64
      → Made js now pri delay ttr body_size tube js.next_job_id
          (make_job_with_id js now pri delay ttr body_size tube none)
        × (job_find js js.next_job_id ≡ none)
        × IsStore (make_job_with_id js now pri delay ttr body_size tube none).1
  unfolding make_job_with_id job_find
  make_job_with_id-next s h = (
    record {
      address = refl;
      found = ground arith;
      others = λ i n. ground arith;
      kept = λ a n. ground arith;
      alone = record { no_next = ground arith; no_prev = ground arith };
      has_id = ground arith;
      has_pri = ground arith;
      has_delay = ground arith;
      has_ttr = ground arith;
      has_size = ground arith;
      has_time = ground arith;
      has_tube = ground arith;
    },
    elim (Option-cases (js.all_jobs js.next_job_id)) [
      | inl q ↦ q
      | inr (a, q) ↦ absurd (omega (arith, s.below js.next_job_id a q))
    ],
    record {
      ids = λ id a e. ground (arith, s.ids id a, s.memory id a);
      memory = λ id a e. ground (arith, s.memory id a);
      below = λ id a e. ground (arith, s.below id a);
      fits = omega arith;
    },
  )

  -- With an id below 2 ^ 64 - 1, as the log gives it, MakeJobWithID stores the new job under that
  -- id, changes no other job, and keeps later ids above all ids.
  pub make_job_with_id-given :
      (id : ℕ)
      → IsStore js
      → id + 1 < mod64
      → Made js now pri delay ttr body_size tube id
          (make_job_with_id js now pri delay ttr body_size tube (some id))
        × IsStore (make_job_with_id js now pri delay ttr body_size tube (some id)).1
  unfolding make_job_with_id job_find
  make_job_with_id-given id s h = (
    record {
      address = refl;
      found = ground arith;
      others = λ i n. ground arith;
      kept = λ a n. ground arith;
      alone = record { no_next = ground arith; no_prev = ground arith };
      has_id = ground arith;
      has_pri = ground arith;
      has_delay = ground arith;
      has_ttr = ground arith;
      has_size = ground arith;
      has_time = ground arith;
      has_tube = ground arith;
    },
    record {
      ids = λ i a e. ground (arith, s.ids i a, s.memory i a);
      memory = λ i a e. ground (arith, s.memory i a);
      below = λ i a e. ground (arith, s.below i a);
      fits = ground (arith, s.fits);
    },
  )

-- Copying a job makes a new object in the state Copy and leaves every job in memory as it is.
-- After JobFree of the copy each id leads where it led before.
pub job_copy-job_free :
    (js : Jobs) (j : ℕ)
    → j < js.fresh
    → let (copy, js') = job_copy js (some j) in
      (copy ≡ some js.fresh)
      × ((js'.at js.fresh).r.state ≡ copied)
      × ((a : ℕ) → a < js.fresh → js'.at a ≡ js.at a)
      × ((id : ℕ) → job_find (job_free js' copy) id ≡ job_find js id)
unfolding job_copy job_free job_find
job_copy-job_free js j h = (refl, ground arith, λ a p. ground arith, λ id. ground arith)

not_copy : (s : JobState) → s ≢ copied → is_copy s ≡ false
not_copy copied h = absurd (h refl)
not_copy _ h = refl

-- Freeing a job that is no copy takes exactly its id out of the map, and its tube from the job.
pub job_free-job_find :
    (js : Jobs) (j : ℕ)
    → (js.at j).r.state ≢ copied
    → ((id : ℕ)
        → job_find (job_free js (some j)) id
          ≡ (if (js.at j).r.id == id then none else job_find js id))
      × (((job_free js (some j)).at j).tube ≡ none)
unfolding job_free job_find
job_free-job_find js j h =
    rw (not_copy (js.at j).r.state h, job_free) (λ id. ground arith, ground arith)
