-- ===== src/Core/Wal/Replay.antt =====
-- core/file.go: ReadRec and ReadRec5. A file that is read is the bytes that are left of it; a record
-- ends with an error, `none`, or with the bytes behind it.
pub mod Records
pub mod Short
pub mod Full
mod Tests
use gostalkd.Prelude.{
  ℕ, ◌+◌, Bool, true, false, not, [], Option, none, some, Bytes, ◌==◌, if◌then◌else◌, add64, slt,
  length,
}
use gostalkd.Core.Job.{
  JobRec, JobState, invalid, ready, reserved, buried, delayed, job_find, job_free, make_job_with_id,
}
use gostalkd.Core.Links.{list_reset, list_insert, list_remove}
use gostalkd.Core.Tube.{Stat, tube_find}
use gostalkd.Machine.Actions.{
  on_option, M, ◌>>=◌, ◌>>◌, return, done, panic, read, modify, deref, now, get_job, change_job,
  change_rec, change_links, change_jobs, change_tube_stat, change_stat, change_wal,
}
use gostalkd.Core.Wal.Files.{file_add_job, file_rm_job}
use gostalkd.Core.Wal.Decode.{little_endian, read_full, decode_rec, decode_rec5}

-- the end of ReadRec and ReadRec5 for a job that is no more, or that cannot be read
unfoldable pub forget : Option ℕ → M (Unit {0})
unfolding list_remove file_rm_job job_free
forget none = done
forget (some j) = do
  change_links (λ l. (list_remove l (some j)).1)
  x ← get_job j
  file_rm_job x.file j
  change_jobs (λ js. job_free js (some j))

-- how ReadRec counts a job that it makes
abbrev pub counted : Bool → Stat → Stat
counted is_buried s =
    let t : Stat = record s { total_jobs_ct = add64 s.total_jobs_ct 1 } in
    if is_buried then record t { buried_ct = add64 t.buried_ct 1 } else t

abbrev pub is_buried : JobState → Bool
is_buried buried = true
is_buried _ = false

-- the part of ReadRec that makes a job; the tube of that name is nil if there is none, and the
-- counting panics then
unfoldable pub make_read : JobRec → Bytes → M ℕ
unfolding tube_find make_job_with_id list_reset
make_read r name = do
  u ← now
  w ← read
  let t = tube_find w.tubes name
  let (j, js) = make_job_with_id w.jobs u r.pri r.delay r.ttr r.body_size t (some r.id)
  modify (λ v. record v { jobs = record js { links = list_reset js.links j } })
  change_rec j (λ x. record x { create_at = r.create_at })
  a ← deref t
  change_tube_stat a (counted (is_buried r.state))
  change_stat (counted (is_buried r.state))
  return j

-- the part of ReadRec that counts the bytes of a record
unfoldable pub count_bytes : ℕ → ℕ → M (Unit {0})
count_bytes j size = do
  change_job j (λ x. record x { wal_used = add64 x.wal_used size })
  change_wal (λ x. record x { alive = add64 x.alive size })

-- the part of ReadRec that puts a record into its job and reads the body; the test of the body's
-- size is left out, since both sizes are that of the record, and so is the part of a body that is
-- cut off, whose job is forgotten
unfoldable pub fill_read : ℕ → ℕ → ℕ → JobRec → Bool → ℕ → Bytes → M (Option Bytes)
unfolding list_insert read_full forget file_rm_job file_add_job count_bytes
fill_read f l j r is_full size s = do
  change_rec j (λ _. r)
  change_links (λ k. list_insert k l j)
  if not is_full
      then (do count_bytes j size; return (some s))
      else if slt r.body_size 0
      then panic
      else on_option (read_full r.body_size s) (do forget (some j); return none)
          (λ (body, rest). (do
            change_job j (λ x. record x { body = body })
            x ← get_job j
            file_rm_job x.file j
            file_add_job f j
            count_bytes j (add64 size r.body_size)
            return (some rest)))

-- the branches of ReadRec for a job that is to be kept
unfoldable pub restore : ℕ → ℕ → Option ℕ → JobRec → Bytes → Bool → ℕ → Bytes → M (Option Bytes)
unfolding make_read fill_read
restore f l (some j) r name is_full size s = fill_read f l j r is_full size s
restore f l none r name is_full size s = do
  w ← read
  if slt w.max_job_size r.body_size
      then return none
      else (do j ← make_read r name; fill_read f l j r is_full size s)

-- the switch of ReadRec
unfoldable pub read_state :
    ℕ → ℕ → Option ℕ → JobRec → JobState → Bytes → Bool → ℕ → Bytes → M (Option Bytes)
unfolding restore forget
read_state f l j r reserved name is_full size s =
    restore f l j (record r { state = ready }) name is_full size s
read_state f l j r ready name is_full size s = restore f l j r name is_full size s
read_state f l j r buried name is_full size s = restore f l j r name is_full size s
read_state f l j r delayed name is_full size s = restore f l j r name is_full size s
read_state f l j r invalid name is_full size s = do forget j; return (some s)
read_state f l j r _ name is_full size s = do forget j; return none

-- ReadRec, from the record on; a short record of a job that is not known is left out
unfoldable pub read_job_rec : ℕ → ℕ → Bytes → JobRec → ℕ → Bytes → M (Option Bytes)
unfolding job_find read_state
read_job_rec f l name r size s = if r.id == 0 then return none else (do
  w ← read
  let j = job_find w.jobs r.id
  let is_full = not (length name == 0)
  let unknown : Bool = on_option j (not is_full) (λ _. false)
  if unknown then return (some s) else read_state f l j r r.state name is_full size s)

-- MaxTubeNameLen
abbrev pub max_name_len : ℕ
max_name_len = 201

-- ReadRec; a negative length ends a record without an error
unfoldable pub read_rec : ℕ → ℕ → Bytes → M (Option Bytes)
unfolding read_full little_endian decode_rec read_job_rec
read_rec f l s = on_option (read_full 8 s) (return none) (λ (head, s₁).
    let name_len = little_endian head in
    if slt name_len 0
    then return (some s₁)
    else if not (slt name_len max_name_len)
    then return none
    else on_option (read_full name_len s₁) (return none) (λ (name, s₂).
      on_option (read_full 73 s₂) (return none)
        (λ (raw, s₃). read_job_rec f l name (decode_rec raw) (81 + name_len) s₃)))

-- ReadRec5; binary.Read refuses to read into a string, so that a record with a name is an error,
-- and one without a name is about a job that is known, or is left out
unfoldable pub read_rec5 : ℕ → ℕ → Bytes → M (Option Bytes)
unfolding read_full little_endian decode_rec5 read_job_rec
read_rec5 f l s = on_option (read_full 8 s) (return none) (λ (head, s₁).
    let name_len = little_endian head in
    if slt name_len 0
    then return (some s₁)
    else if not (name_len == 0)
    then return none
    else on_option (read_full 74 s₁) (return none)
        (λ (raw, s₂). read_job_rec f l [] (decode_rec5 raw) 82 s₂))
