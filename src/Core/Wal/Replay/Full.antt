-- ===== src/Core/Wal/Replay/Full.antt =====
-- What ReadRec of core/file.go does with a full record of a job that is not known, of a tube that is
-- there.
use gostalkd.Prelude.{
  ℕ, ◌+◌, ◌<◌, ◌≡◌, refl, true, false, ◌++◌, none, some, Bytes, Yields, yields, Yields-mono,
  ==_self, ◌==◌, slt, half64, length, arith,
}
use gostalkd.Core.Job.{JobRec, ready, job_find, make_job_with_id}
use gostalkd.Core.Tube.{tube_find}
use gostalkd.Machine.{World}
use gostalkd.Machine.Actions.{◌>>=◌}
use gostalkd.Machine.Laws.{after}
use gostalkd.Core.Wal.Files.{file_rm_job, file_add_job, file_inc_ref}
use gostalkd.Core.Wal.Replay.{
  read_rec, max_name_len, read_job_rec, read_state, restore, fill_read, make_read, count_bytes,
}
use gostalkd.Core.Wal.Replay.Records.{read_full-append, record_bytes, read_rec-record_bytes}
use gostalkd.Core.Wal.Decode.RoundTrip.{Fits}

-- A job that ReadRec has made, before the record is put into it.
record Fresh (w : World) (t id : ℕ) (out : ℕ × World) : Type 0 where
  address : out.0 ≡ w.jobs.fresh
  tube : (out.1.jobs.at out.0).tube ≡ some t
  file : (out.1.jobs.at out.0).file ≡ none
  found : job_find out.1.jobs id ≡ some out.0

make_read-Fresh :
    (w : World) (t : ℕ) (r : JobRec) (name : Bytes)
    → tube_find w.tubes name ≡ some t
    → Yields (Fresh w t r.id) (make_read r name w)
unfolding make_read make_job_with_id job_find
make_read-Fresh w t r name h =
    rw (make_read, ◌>>=◌, h)
      (yields record {
        address = refl;
        tube = rw (==_self w.jobs.fresh);
        file = rw (==_self w.jobs.fresh);
        found = rw (==_self w.jobs.fresh, ==_self r.id);
      })

-- A job that has been read back.
pub record Restored (f t : ℕ) (r : JobRec) (body : Bytes) (after : World) (j : ℕ) : Type 0 where
  pub rec : (after.jobs.at j).r ≡ r
  pub body_read : (after.jobs.at j).body ≡ body
  pub tube : (after.jobs.at j).tube ≡ some t
  pub file : (after.jobs.at j).file ≡ some f
  pub found : job_find after.jobs r.id ≡ some j

fill_read-Restored :
    (w : World) (f l t j size : ℕ) (r : JobRec) (body s : Bytes)
    → r.body_size ≡ length body
    → length body < half64
    → (w.jobs.at j).tube ≡ some t
    → (w.jobs.at j).file ≡ none
    → job_find w.jobs r.id ≡ some j
    → Yields
        (λ out. (out.0 ≡ some s) × Restored f t r body out.1 j)
        (fill_read f l j r true size (body ++ s) w)
unfolding fill_read file_rm_job file_add_job file_inc_ref count_bytes job_find
fill_read-Restored w f l t j size r body s len short in_tube no_file known =
    let positive : slt (length body) 0 ≡ false = ground arith in
    rw (fill_read, len, positive, read_full-append body s, ==_self j, no_file)
      (yields (
        refl,
        record {
          rec = rw (==_self j);
          body_read = rw (==_self j);
          tube = rw (==_self j) in_tube;
          file = rw (==_self j);
          found = known;
        },
      ))

-- the same of a record whose name and JobRec have been read
read_job_rec-Restored :
    (w : World) (f l t size : ℕ) (name : Bytes) (r : JobRec) (body s : Bytes)
    → 0 < r.id
    → 0 < length name
    → r.state ≡ ready
    → slt w.max_job_size r.body_size ≡ false
    → r.body_size ≡ length body
    → length body < half64
    → job_find w.jobs r.id ≡ none
    → tube_find w.tubes name ≡ some t
    → Yields
        (λ out. (out.0 ≡ some s) × Restored f t r body out.1 w.jobs.fresh)
        (read_job_rec f l name r size (body ++ s) w)
unfolding read_job_rec read_state restore
read_job_rec-Restored w f l t size name r body s some_id named st small len short unknown there =
    let id : (r.id == 0) ≡ false = ground arith in
    let full : (length name == 0) ≡ false = ground arith in
    let q : JobRec = record r { state = ready } in
    rw (read_job_rec, ◌>>=◌, id, unknown, full, st, small)
      (after (make_read q name) (λ j. fill_read f l j q true size (body ++ s)) w
        (make_read-Fresh w t q name there)
        λ out p.
          Yields-mono
            (fill_read-Restored out.1 f l t out.0 size q body s len short p.tube p.file p.found)
            λ last z. (z.0, rw p.address at z.1))

-- For the bytes of a full record of a ready job, with an id above 0, numbers that fit their fields
-- and a name of 1 to 200 bytes, where the job is not known yet and not too big, the tube is there,
-- and the body follows whole and is shorter than 2 ^ 63, ReadRec goes on behind the body; the job
-- that the id leads to has the record, the body and the tube, and is held by the file.
pub read_rec-Restored :
    (w : World) (f l t : ℕ) (name : Bytes) (r : JobRec) (body s : Bytes)
    → Fits r
    → length name < max_name_len
    → 0 < r.id
    → 0 < length name
    → r.state ≡ ready
    → slt w.max_job_size r.body_size ≡ false
    → r.body_size ≡ length body
    → length body < half64
    → job_find w.jobs r.id ≡ none
    → tube_find w.tubes name ≡ some t
    → Yields
        (λ out. (out.0 ≡ some s) × Restored f t r body out.1 w.jobs.fresh)
        (read_rec f l (record_bytes name r (body ++ s)) w)
read_rec-Restored w f l t name r body s fits short some_id named st small len whole unknown there =
    rw (read_rec-record_bytes w f l name r (body ++ s) fits short) (
      read_job_rec-Restored w f l t (81 + length name) name r body s some_id named st small len
        whole unknown there)
