-- ===== src/Core/Job/Order.antt =====
-- The orders of the ready heap and of the delay heap.
use gostalkd.Prelude.{ltb, ℕ, ◌+◌, ◌*◌, ◌<◌, ◌≡◌, ◌≢◌, ◌⊎◌, true, arith, mod64, bias}
use gostalkd.Core.Job.{Job, job_pri_less, job_delay_less}
use gostalkd.Structure.Heap.Order.{Ranking}

-- Every id fits its uint64.
abbrev pub IdsFit : (ℕ → Job) → Type 0
IdsFit at = (a : ℕ) → (at a).r.id < mod64

pub job_pri_less-rank :
    (at : ℕ → Job)
    → IdsFit at
    → (a b : ℕ)
    → job_pri_less at a b
      ≡ ltb ((at a).r.pri * mod64 + (at a).r.id) ((at b).r.pri * mod64 + (at b).r.id)
unfolding job_pri_less
job_pri_less-rank at fit a b = ground (arith, fit a, fit b)

pub job_delay_less-rank :
    (at : ℕ → Job)
    → IdsFit at
    → (a b : ℕ)
    → job_delay_less at a b
      ≡ ltb
          (bias (at a).r.deadline_at * mod64 + (at a).r.id)
          (bias (at b).r.deadline_at * mod64 + (at b).r.id)
unfolding job_delay_less
job_delay_less-rank at fit a b = ground (arith, fit a, fit b)

-- JobPriLess orders jobs by priority and then by id, as one number.
unfoldable pub pri_ranking : (at : ℕ → Job) → IdsFit at → Ranking ℕ (job_pri_less at)
pri_ranking at fit = record {
  rank = λ a. (at a).r.pri * mod64 + (at a).r.id;
  less-rank = job_pri_less-rank at fit;
}

-- JobDelayLess orders jobs by deadline and then by id, as one number.
unfoldable pub delay_ranking : (at : ℕ → Job) → IdsFit at → Ranking ℕ (job_delay_less at)
delay_ranking at fit = record {
  rank = λ a. bias (at a).r.deadline_at * mod64 + (at a).r.id;
  less-rank = job_delay_less-rank at fit;
}

-- Of two jobs with different ids exactly one is before the other, in either heap.
pub less_total :
    (at : ℕ → Job) (a b : ℕ)
    → (at a).r.id ≢ (at b).r.id
    → ((job_pri_less at a b ≡ true) ⊎ (job_pri_less at b a ≡ true))
      × ((job_delay_less at a b ≡ true) ⊎ (job_delay_less at b a ≡ true))
unfolding job_pri_less job_delay_less
less_total at a b h = (ground arith, ground arith)
