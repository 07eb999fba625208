-- ===== src/Core/Wal/Replay/Short.antt =====
-- What ReadRec of core/file.go does with a short record, which has no name, of a job that is known.
use gostalkd.Prelude.{
  ℕ, ◌<◌, ◌≡◌, refl, false, [], Option, none, some, Bytes, Yields, yields, ==_self, ◌==◌, add64,
  arith,
}
use gostalkd.Core.Job.{
  JobRec, JobState, invalid, ready, reserved, buried, delayed, copied, other, job_find,
}
use gostalkd.Machine.{World}
use gostalkd.Machine.Actions.{◌>>=◌}
use gostalkd.Core.Wal.Decode.RoundTrip.{Fits}
use gostalkd.Core.Wal.Replay.Records.{record_bytes, read_rec-record_bytes}
use gostalkd.Core.Wal.Replay.{read_rec, read_job_rec, read_state, restore, fill_read, count_bytes}

-- The state in which a job comes back, by the state in its record.
abbrev pub kept_as : JobState → Option JobState
kept_as reserved = some ready
kept_as ready = some ready
kept_as buried = some buried
kept_as delayed = some delayed
kept_as _ = none

-- What a short record leaves of the job at the address `j`.
pub record Updated (w : World) (j : ℕ) (r : JobRec) (size : ℕ) (after : World) : Type 0 where
  pub rec : (after.jobs.at j).r ≡ r
  pub body : (after.jobs.at j).body ≡ (w.jobs.at j).body
  pub tube : (after.jobs.at j).tube ≡ (w.jobs.at j).tube
  pub used : (after.jobs.at j).wal_used ≡ add64 (w.jobs.at j).wal_used size
  pub alive : after.wal.alive ≡ add64 w.wal.alive size

module _ (w : World) (f l j size : ℕ) (r : JobRec) (s : Bytes) where
  fill_read-Updated :
      Yields (λ out. (out.0 ≡ some s) × Updated w j r size out.1) (fill_read f l j r false size s w)
  unfolding fill_read count_bytes
  fill_read-Updated = yields (
    refl,
    record {
      rec = rw (==_self j);
      body = rw (==_self j);
      tube = rw (==_self j);
      used = rw (==_self j);
      alive = refl;
    },
  )

read_state-Updated :
    (w : World) (f l j size : ℕ) (r : JobRec) (s : Bytes) (before st : JobState)
    → r.state ≡ before
    → kept_as before ≡ some st
    → Yields
        (λ out. (out.0 ≡ some s) × Updated w j (record r { state = st }) size out.1)
        (read_state f l (some j) r before [] false size s w)
unfolding read_state restore
read_state-Updated w f l j size r s reserved st e k =
    let q : st ≡ ready = cc in rw q (fill_read-Updated w f l j size (record r { state = ready }) s)
read_state-Updated w f l j size r s ready st e k =
    let q : st ≡ r.state = cc in rw q (fill_read-Updated w f l j size r s)
read_state-Updated w f l j size r s buried st e k =
    let q : st ≡ r.state = cc in rw q (fill_read-Updated w f l j size r s)
read_state-Updated w f l j size r s delayed st e k =
    let q : st ≡ r.state = cc in rw q (fill_read-Updated w f l j size r s)
read_state-Updated w f l j size r s invalid st e k = absurd (ground arith)
read_state-Updated w f l j size r s copied st e k = absurd (ground arith)
read_state-Updated w f l j size r s (other n) st e k = absurd (ground arith)

-- the same of a record whose JobRec has been read
read_job_rec-Updated :
    (w : World) (f l j size : ℕ) (r : JobRec) (s : Bytes) (st : JobState)
    → 0 < r.id
    → job_find w.jobs r.id ≡ some j
    → kept_as r.state ≡ some st
    → Yields
        (λ out. (out.0 ≡ some s) × Updated w j (record r { state = st }) size out.1)
        (read_job_rec f l [] r size s w)
unfolding read_job_rec
read_job_rec-Updated w f l j size r s st some_id known k =
    let id : (r.id == 0) ≡ false = ground arith in
    rw (read_job_rec, ◌>>=◌, id, known) (read_state-Updated w f l j size r s r.state st refl k)

-- For the bytes of a short record, which has no name, with an id above 0 and numbers that fit their
-- fields, of a job that is known, in a state in which jobs are kept, ReadRec goes on behind it; the
-- job has the record's numbers and state, with ready for reserved, and keeps its body and tube, and
-- the 81 bytes of the record count for the job and for the log.
pub read_rec-Updated :
    (w : World) (f l j : ℕ) (r : JobRec) (s : Bytes) (st : JobState)
    → Fits r
    → 0 < r.id
    → job_find w.jobs r.id ≡ some j
    → kept_as r.state ≡ some st
    → Yields
        (λ out. (out.0 ≡ some s) × Updated w j (record r { state = st }) 81 out.1)
        (read_rec f l (record_bytes [] r s) w)
read_rec-Updated w f l j r s st fits some_id known k =
    rw (read_rec-record_bytes w f l [] r s fits (omega arith))
      (read_job_rec-Updated w f l j 81 r s st some_id known k)
