-- ===== src/Core/Wal/Decode.antt =====
-- core/file.go: the bytes of a log file as numbers and records (readFull, binary.Read).
pub mod RoundTrip
use gostalkd.Prelude.{
  ℕ, zero, suc, ◌+◌, ◌*◌, ◌-◌, ◌%◌, ◌^◌, Bool, true, false, not, ◌&&◌, List, [], ◌∷◌, Option, none,
  some, Bytes, ltb, ◌==◌, if◌then◌else◌, add64, sub64, mod64, half64, slt, length, take, drop,
}
use gostalkd.Core.Job.{
  Job, JobRec, JobState, invalid, ready, reserved, buried, delayed, copied, other, job_find,
  job_free, make_job_with_id,
}
use gostalkd.Core.Links.{list_reset, list_insert, list_remove}
use gostalkd.Core.Tube.{Stat, tube_find}
use gostalkd.Machine.{World, File, Wal}
use gostalkd.Machine.Actions.{
  M, ◌>>=◌, ◌>>◌, return, done, panic, read, modify, when, deref, now, get_job, change_job,
  change_rec, change_links, change_jobs, change_tube_stat, change_stat, change_file, change_wal,
}
use gostalkd.Core.Wal.Files.{
  file_inc_ref, file_dec_ref, file_add_job, file_rm_job, file_add, make_next_file,
}

-- a number from its bytes, the lowest first
unfoldable pub little_endian : Bytes → ℕ
little_endian [] = 0
little_endian (b ∷ bs) = b + 256 * little_endian bs

-- readFull and binary.Read of `n` bytes
unfoldable pub read_full : ℕ → Bytes → Option (Bytes × Bytes)
read_full n s = if ltb (length s) n then none else some (take n s, drop n s)

-- the bytes of the states of constant.go
abbrev pub state_of : ℕ → JobState
state_of n =
    if n == 0
    then invalid
    else if n == 1
    then ready
    else if n == 2
    then reserved
    else if n == 3
    then buried
    else if n == 4
    then delayed
    else if n == 5
    then copied
    else other n

-- the number in the `n` bytes behind `at`
abbrev pub field : Bytes → ℕ → ℕ → ℕ
field s at n = little_endian (take n (drop at s))

-- binary.Read of a JobRec, which has 73 bytes
unfoldable pub decode_rec : Bytes → JobRec
unfolding little_endian
decode_rec s = record {
  id = field s 0 8;
  pri = field s 8 4;
  delay = field s 12 8;
  ttr = field s 20 8;
  body_size = field s 28 8;
  create_at = field s 36 8;
  deadline_at = field s 44 8;
  reserve_ct = field s 52 4;
  timeout_ct = field s 56 4;
  release_ct = field s 60 4;
  bury_ct = field s 64 4;
  kick_ct = field s 68 4;
  state = state_of (field s 72 1);
}

-- int64 of an int32
abbrev pub widen : ℕ → ℕ
widen n = if ltb n (2 ^ 31) then n else mod64 - 2 ^ 32 + n

-- binary.Read of a JobRec5, which has 74 bytes, as ReadRec5 puts it into a job
unfoldable pub decode_rec5 : Bytes → JobRec
unfolding little_endian
decode_rec5 s = record {
  id = field s 0 8;
  pri = field s 8 4;
  delay = field s 12 8 * 1000 % mod64;
  ttr = field s 20 8 * 1000 % mod64;
  body_size = widen (field s 28 4);
  create_at = field s 32 8;
  deadline_at = field s 40 8 * 1000 % mod64;
  reserve_ct = field s 48 8 % 2 ^ 32;
  timeout_ct = field s 56 4;
  release_ct = field s 60 4;
  bury_ct = field s 64 4;
  kick_ct = field s 68 4;
  state = state_of (field s 72 1);
}
