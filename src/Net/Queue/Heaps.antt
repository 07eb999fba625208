-- ===== src/Net/Queue/Heaps.antt =====
-- Taking a job out of the heaps of its tube (net/prot.go: removeReadyJob, removeDelayedJob).
use gostalkd.Prelude.{
  ℕ, ◌≡◌, refl, ◌∷◌, some, Perm, Yields, yields, Yields-some, get_elem?, sub64, ltb, ◌∙◌,
  Bool-cases, inl, inr, ◌==◌, arith, true,
}
use gostalkd.Structure.Heap.{Item}
use gostalkd.Structure.Heap.Order.{values}
use gostalkd.Structure.Heap.Correct.{IsValid, remove_correct}
use gostalkd.Core.Job.{ready, delayed}
use gostalkd.Core.Job.Order.{IdsFit, pri_ranking, delay_ranking}
use gostalkd.Net.Queue.{
  ready_remove, delay_remove, remove_ready_job, remove_delayed_job, count_out, urgent_threshold,
}
use gostalkd.Machine.{World}
use gostalkd.Machine.Actions.{◌>>◌, return}
use gostalkd.Machine.Laws.{after}

-- The counters have changed, and nothing else of the jobs and of the heaps.
pub record Counted (w after : World) : Type 0 where
  pub jobs : after.jobs ≡ w.jobs
  pub ready : (t : ℕ) → (after.tubes.at t).ready ≡ (w.tubes.at t).ready
  pub delay : (t : ℕ) → (after.tubes.at t).delay ≡ (w.tubes.at t).delay
  pub count : after.ready_ct ≡ sub64 w.ready_ct 1

count_out-Counted :
    (w : World) (j t : ℕ)
    → (w.jobs.at j).tube ≡ some t
    → Yields (λ out. Counted w out.1) (count_out j w)
unfolding count_out
count_out-Counted w j t in_tube = elim (Bool-cases (ltb (w.jobs.at j).r.pri urgent_threshold)) [
  | inl q ↦
      rw (q, in_tube)
        (yields (record {
          jobs = refl;
          ready = λ u. ground arith;
          delay = λ u. ground arith;
          count = refl;
        }))
  | inr q ↦
      rw q (yields (record { jobs = refl; ready = λ u. refl; delay = λ u. refl; count = refl }))
]

module _ (w : World) (j t : ℕ) (x : Item ℕ) (fit : IdsFit w.jobs.at) where
  -- The tube's ready heap has lost the item, and nothing else of it; its delay heap and the jobs
  -- are as before.
  pub record ReadyLess (after : World) : Type 0 where
    pub same : Perm (values (w.tubes.at t).ready) (x.value ∷ values (after.tubes.at t).ready)
    pub valid : IsValid (pri_ranking w.jobs.at fit) (after.tubes.at t).ready
    pub jobs : after.jobs ≡ w.jobs
    pub delay : (after.tubes.at t).delay ≡ (w.tubes.at t).delay

  ready_remove-ReadyLess :
      (w.jobs.at j).tube ≡ some t
      → IsValid (pri_ranking w.jobs.at fit) (w.tubes.at t).ready
      → get_elem? (w.tubes.at t).ready (w.jobs.at j).heap_index ≡ some x
      → Yields (λ out. ReadyLess out.1 × (out.1.ready_ct ≡ w.ready_ct)) (ready_remove j w)
  unfolding ready_remove
  ready_remove-ReadyLess in_tube v at =
      let (out, e, d) = Yields-some (
        remove_correct (pri_ranking w.jobs.at fit) (w.tubes.at t).ready (w.jobs.at j).heap_index x v
          at) in
      let here : (t == t) ≡ true = ground arith in
      rw (in_tube, e)
        (yields (
          record {
            same = rw here d.same;
            valid = rw here d.valid;
            jobs = refl;
            delay = rw here refl;
          },
          refl,
        ))

  -- If all ids fit 64 bits, removeReadyJob of a ready job, in a tube whose ready heap is valid and
  -- has an item at the job's HeapIndex, does not panic and returns the job; the heap loses that item,
  -- which may be another job's, stays valid, and the count of ready jobs goes down by one.
  pub remove_ready_job-ReadyLess :
      (w.jobs.at j).tube ≡ some t
      → (w.jobs.at j).r.state ≡ ready
      → IsValid (pri_ranking w.jobs.at fit) (w.tubes.at t).ready
      → get_elem? (w.tubes.at t).ready (w.jobs.at j).heap_index ≡ some x
      → Yields
          (λ out. (out.0 ≡ some j) × ReadyLess out.1 × (out.1.ready_ct ≡ sub64 w.ready_ct 1))
          (remove_ready_job (some j) w)
  unfolding remove_ready_job
  remove_ready_job-ReadyLess in_tube is v at = rw is (
      after (ready_remove j) (λ _. count_out j >> return (some j)) w
        (ready_remove-ReadyLess in_tube v at)
        λ (_, w₁) (less, kept).
          after (count_out j) (λ _. return (some j)) w₁
            (count_out-Counted w₁ j t (rw less.jobs in_tube))
            λ (_, w₂) c. yields (
              refl,
              record {
                same = rw (c.ready t) less.same;
                valid = rw (c.ready t) less.valid;
                jobs = c.jobs ∙ less.jobs;
                delay = c.delay t ∙ less.delay;
              },
              rw kept at c.count,
            ))

  -- The tube's delay heap has lost the item, and nothing else of it; its ready heap, the jobs and
  -- the count of ready jobs are as before.
  pub record DelayLess (after : World) : Type 0 where
    pub same : Perm (values (w.tubes.at t).delay) (x.value ∷ values (after.tubes.at t).delay)
    pub valid : IsValid (delay_ranking w.jobs.at fit) (after.tubes.at t).delay
    pub jobs : after.jobs ≡ w.jobs
    pub ready : (after.tubes.at t).ready ≡ (w.tubes.at t).ready
    pub count : after.ready_ct ≡ w.ready_ct

  delay_remove-DelayLess :
      (w.jobs.at j).tube ≡ some t
      → IsValid (delay_ranking w.jobs.at fit) (w.tubes.at t).delay
      → get_elem? (w.tubes.at t).delay (w.jobs.at j).heap_index ≡ some x
      → Yields (λ out. DelayLess out.1) (delay_remove j w)
  unfolding delay_remove
  delay_remove-DelayLess in_tube v at =
      let (out, e, d) = Yields-some (
        remove_correct (delay_ranking w.jobs.at fit) (w.tubes.at t).delay (w.jobs.at j).heap_index x
          v at) in
      let here : (t == t) ≡ true = ground arith in
      rw (in_tube, e)
        (yields (record {
          same = rw here d.same;
          valid = rw here d.valid;
          jobs = refl;
          ready = rw here refl;
          count = refl;
        }))

  -- removeDelayedJob of a delayed job, in a tube whose delay heap is valid, does not panic and
  -- returns the job; the heap loses the item at the job's HeapIndex, which may be another job's,
  -- and stays valid.
  pub remove_delayed_job-DelayLess :
      (w.jobs.at j).tube ≡ some t
      → (w.jobs.at j).r.state ≡ delayed
      → IsValid (delay_ranking w.jobs.at fit) (w.tubes.at t).delay
      → get_elem? (w.tubes.at t).delay (w.jobs.at j).heap_index ≡ some x
      → Yields (λ out. (out.0 ≡ some j) × DelayLess out.1) (remove_delayed_job (some j) w)
  unfolding remove_delayed_job
  remove_delayed_job-DelayLess in_tube is v at = rw is (
      after (delay_remove j) (λ _. return (some j)) w (delay_remove-DelayLess in_tube v at)
        λ out less. yields (refl, less))
