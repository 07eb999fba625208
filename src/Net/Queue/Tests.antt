-- ===== src/Net/Queue/Tests.antt =====
-- Taking jobs out of the lists and heaps of the sample memory.
use gostalkd.Prelude.{ℕ, ◌≡◌, ◌%◌, refl, true, yields, [], ◌∷◌, some, Yields, arith, sub64}
use gostalkd.Structure.Heap.{Item}
use gostalkd.Structure.Heap.Correct.{IsValid}
use gostalkd.Core.Job.{Job, delayed, buried, reserved}
use gostalkd.Core.Job.Order.{IdsFit, pri_ranking, delay_ranking}
use gostalkd.Net.Queue.{remove_ready_job, touch_job}
use gostalkd.Net.Queue.Heaps.{ReadyLess, remove_ready_job-ReadyLess}
use gostalkd.Net.Queue.Touched.{Touched, touch_job-Touched}
use gostalkd.Core.Links.{Links, list_insert}
use gostalkd.Core.Links.Rings.{Ring, IsAlone}
use gostalkd.Core.Links.Insert.{list_insert-Ring}
use gostalkd.Machine.{World}
use gostalkd.Machine.Sample.{sample_world, sample_job, sample_jobs, sample_tube}

-- The sample memory with ids below 8 at all addresses.
abbrev world : World
world = record sample_world { jobs = record sample_jobs { at = λ a. sample_job (a % 8) } }

world-IdsFit : IdsFit world.jobs.at
world-IdsFit a = omega arith

abbrev item : ℕ → ℕ → Item ℕ
item value index = record { value = value; index = index }

ready-IsValid : IsValid (pri_ranking world.jobs.at world-IdsFit) sample_tube.ready
unfolding pri_ranking
ready-IsValid = record { ordered = grind arith; indexed = λ c x e. ground arith }

-- The job at the address 2 is asked for, the one at the address 1 leaves the heap.
remove_ready_job-ReadyLess_example :
    Yields
      (λ out.
        (out.0 ≡ some 2)
        × ReadyLess world 2 0 (item 1 0) world-IdsFit out.1
        × (out.1.ready_ct ≡ sub64 2 1))
      (remove_ready_job (some 2) world)
remove_ready_job-ReadyLess_example =
    remove_ready_job-ReadyLess world 2 0 (item 1 0) world-IdsFit refl refl ready-IsValid refl

delayed_job : ℕ → Job
delayed_job a = let j = sample_job (a % 8) in record j { r = record (j.r) { state = delayed } }

abbrev later_world : World
unfolding delayed_job
later_world = record sample_world { jobs = record sample_jobs { at = delayed_job } }

later_world-IdsFit : IdsFit later_world.jobs.at
unfolding later_world delayed_job
later_world-IdsFit a = omega arith

delay-IsValid : IsValid (delay_ranking later_world.jobs.at later_world-IdsFit) sample_tube.delay
unfolding delay_ranking later_world delayed_job
delay-IsValid = record { ordered = grind arith; indexed = λ c x e. ground arith }

-- The job at the address 2 is in the tube's list of buried jobs, and all jobs say so of themselves.
unfoldable one_buried : Links
unfolding list_insert
one_buried = list_insert sample_jobs.links 9 2

one_buried-Ring : Ring one_buried 9 (2 ∷ [])
unfolding one_buried
one_buried-Ring =
    list_insert-Ring sample_jobs.links 9 [] 2 (record { chain = (refl, refl); distinct = (tt, tt) })
      (record { no_next = refl; no_prev = refl }) (omega arith, tt)

one_buried-IsAlone : IsAlone one_buried 1
unfolding one_buried list_insert
one_buried-IsAlone = record { no_next = refl; no_prev = refl }

abbrev buried_job : ℕ → Job
buried_job a = let j = sample_job a in record j { r = record (j.r) { state = buried } }

abbrev buried_world : World
buried_world = record sample_world {
  jobs = record sample_jobs { at = buried_job; links = one_buried };
}

held_job : ℕ → Job
held_job a =
    let j = sample_job a in
    record j { r = record (j.r) { state = reserved; ttr = 60 }; reservoir = some 5 }

abbrev held_world : World
unfolding held_job
held_world = record sample_world { jobs = record sample_jobs { at = held_job } }

touch_test :
    Yields
      (λ out. (out.0 ≡ true) × ((out.1.jobs.at 1).r.deadline_at ≡ 1060))
      (touch_job 5 (some 1) held_world)
unfolding touch_job held_world held_job
touch_test = yields (refl, refl)

touch_job-Touched_example : Yields (Touched held_world 5 1) (touch_job 5 (some 1) held_world)
touch_job-Touched_example = touch_job-Touched held_world 5 1
