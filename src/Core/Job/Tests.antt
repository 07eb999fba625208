-- ===== src/Core/Job/Tests.antt =====
-- Two jobs in a store, run on concrete inputs.
use gostalkd.Prelude.{◌≡◌, ◌+◌, refl, [], none, some, arith, update}
use gostalkd.Core.Job.{Job, Jobs, ready, make_job_with_id, job_find, zero_rec}
use gostalkd.Core.Job.Store.{IsStore, Made, make_job_with_id-next}

abbrev blank : Job
blank = record {
  r = zero_rec;
  tube = none;
  heap_index = 0;
  file = none;
  reservoir = none;
  wal_resv = 0;
  wal_used = 0;
  body = [];
}

-- No job yet; the next id is 1.
abbrev empty_store : Jobs
empty_store = record {
  at = λ a. blank;
  links = record { prev = λ j. j; next = λ j. j };
  fresh = 0;
  all_jobs = λ id. none;
  next_job_id = 1;
  all_jobs_used = 0;
}

empty_store-IsStore : IsStore empty_store
empty_store-IsStore = record {
  ids = λ id a e. cc;
  memory = λ id a e. cc;
  below = λ id a e. cc;
  fits = omega arith;
}

find_test : job_find (make_job_with_id empty_store 50 10 0 60 2 (some 3) (some 7)).1 7 ≡ some 0
unfolding make_job_with_id job_find
find_test = refl

make_job_with_id-next_example :
    Made empty_store 50 10 0 60 2
      (some 3)
      1
      (make_job_with_id empty_store 50 10 0 60 2 (some 3) none)
    × (job_find empty_store 1 ≡ none)
    × IsStore (make_job_with_id empty_store 50 10 0 60 2 (some 3) none).1
make_job_with_id-next_example =
    make_job_with_id-next empty_store 50 10 0 60 2 (some 3) empty_store-IsStore (omega arith)

-- One job, of id 7, at the address 0.
abbrev one_job : Jobs
one_job = record empty_store {
  at = λ a. record blank { r = record zero_rec { id = a + 7; state = ready } };
  fresh = 1;
  all_jobs = update (λ id. none) 7 (some 0);
  next_job_id = 8;
}
