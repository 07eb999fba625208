-- ===== src/Core/Tube/Tests.antt =====
-- The tubes of the sample memory.
use gostalkd.Prelude.{◌≡◌, refl, [], ◌∷◌, none, some, codes, arith, map}
use gostalkd.Core.Job.{Jobs, job_pri_less}
use gostalkd.Core.Job.Order.{IdsFit}
use gostalkd.Core.Tube.{tube_find, next_awaited_job, soonest_delayed_job}
use gostalkd.Core.Tube.Pick.{IsBest}
use gostalkd.Core.Tube.Awaited.{
  offer, head_of, due_before, next_awaited_job-IsBest, soonest_delayed_job-IsBest,
}
use gostalkd.Machine.Sample.{sample_jobs, sample_job, sample_tubes}

-- One job at every address, so that its id fits.
abbrev jobs : Jobs
jobs = record sample_jobs { at = λ a. sample_job 4 }

jobs-IdsFit : IdsFit jobs.at
jobs-IdsFit a = omega arith

awaited_test : (next_awaited_job sample_jobs sample_tubes 50).0 ≡ some 1
unfolding next_awaited_job
awaited_test = refl

missing_test : tube_find sample_tubes (codes "mail") ≡ none
unfolding tube_find
missing_test = refl

next_awaited_job-IsBest_example :
    IsBest
      (job_pri_less jobs.at)
      (map (λ t. offer (sample_tubes.at t) 50) (0 ∷ []))
      (next_awaited_job jobs sample_tubes 50).0
next_awaited_job-IsBest_example = next_awaited_job-IsBest jobs sample_tubes 50 jobs-IdsFit

soonest_delayed_job-IsBest_example :
    IsBest
      (due_before sample_jobs.at)
      (map (λ t. head_of (sample_tubes.at t).delay) (0 ∷ []))
      (soonest_delayed_job sample_jobs sample_tubes)
soonest_delayed_job-IsBest_example = soonest_delayed_job-IsBest sample_jobs sample_tubes
