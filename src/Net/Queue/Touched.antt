-- ===== src/Net/Queue/Touched.antt =====
-- When a connection may touch a job (net/prot.go: isJobReservedByConn, touchJob).
use gostalkd.Prelude.{
  ℕ, ◌≡◌, refl, ap, Bool, true, false, Bool-cases, inl, inr, Option, none, some, Yields, yields,
  ◌&&◌, add64, arith,
}
use gostalkd.Core.Job.{Job, JobState, reserved, invalid, ready, buried, delayed, copied, other}
use gostalkd.Core.Wal.Files.{same_address}
use gostalkd.Machine.{World}
use gostalkd.Net.Queue.{touch_job, is_reserved, is_job_reserved_by_conn}

-- The connection has reserved the job.
pub record IsHolder (w : World) (c j : ℕ) : Type 0 where
  pub by_conn : (w.jobs.at j).reservoir ≡ some c
  pub state : (w.jobs.at j).r.state ≡ reserved

-- What touching does: to a job that the connection has reserved, and to any other.
pub data Touched (w : World) (c j : ℕ) : Bool × World → Type 0 where
  renewed :
      {after : World}
      → IsHolder w c j
      → (after.jobs.at j).r.deadline_at ≡ add64 (w.outside.clock w.readings) (w.jobs.at j).r.ttr
      → (after.conn c).soonest_job ≡ none
      → Touched w c j (true, after)
  refused : (IsHolder w c j → ⊥) → Touched w c j (false, w)

holds : Job → ℕ → Bool
holds x c = same_address x.reservoir (some c) && is_reserved x.r.state

both : (a b : Bool) → (a && b) ≡ true → (a ≡ true) × (b ≡ true)
both true b h = (refl, h)
both false b h = absurd (ground arith)

same_address→some : (o : Option ℕ) (c : ℕ) → same_address o (some c) ≡ true → o ≡ some c
same_address→some none c h = absurd (ground arith)
same_address→some (some a) c h = let e : a ≡ c = ground arith in ap some e

is_reserved→reserved : (s : JobState) → is_reserved s ≡ true → s ≡ reserved
is_reserved→reserved reserved h = refl
is_reserved→reserved invalid h = absurd (ground arith)
is_reserved→reserved ready h = absurd (ground arith)
is_reserved→reserved buried h = absurd (ground arith)
is_reserved→reserved delayed h = absurd (ground arith)
is_reserved→reserved copied h = absurd (ground arith)
is_reserved→reserved (other n) h = absurd (ground arith)

holds-IsHolder : (w : World) (c j : ℕ) → holds (w.jobs.at j) c ≡ true → IsHolder w c j
unfolding holds
holds-IsHolder w c j h =
    let (mine, taken) = both (same_address (w.jobs.at j).reservoir (some c)) _ h in
    record {
      by_conn = same_address→some (w.jobs.at j).reservoir c mine;
      state = is_reserved→reserved (w.jobs.at j).r.state taken;
    }

IsHolder-holds : (w : World) (c j : ℕ) → IsHolder w c j → holds (w.jobs.at j) c ≡ true
unfolding holds
IsHolder-holds w c j h = rw (h.by_conn, h.state) (ground arith)

-- touchJob never panics. For a job that the connection has reserved it returns true, sets the
-- deadline to the present time and the job's time to run, and forgets the soonest job of the
-- connection; for any other job it returns false and changes nothing.
pub touch_job-Touched : (w : World) (c j : ℕ) → Yields (Touched w c j) (touch_job c (some j) w)
unfolding touch_job is_job_reserved_by_conn holds
touch_job-Touched w c j = elim (Bool-cases (holds (w.jobs.at j) c)) [
  | inl h ↦
      rw (touch_job, h) (yields (renewed (holds-IsHolder w c j h) (ground arith) (ground arith)))
  | inr h ↦
      rw (touch_job, h) (yields (refused (λ i. absurd (ground (arith, IsHolder-holds w c j i, h)))))
]
