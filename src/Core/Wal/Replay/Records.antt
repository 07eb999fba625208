-- ===== src/Core/Wal/Replay/Records.antt =====
-- What ReadRec of core/file.go does with a full record: the length of a name, the name, and a
-- JobRec.
use gostalkd.Prelude.{
  ℕ, ◌+◌, ◌<◌, ◌≡◌, refl, ap, ◌∙◌, true, false, [], ◌∷◌, ◌++◌, none, some, Bytes, ltb, ◌==◌, slt,
  length, length-append, take, drop, arith,
}
use gostalkd.Core.Job.{JobRec, ready, job_find}
use gostalkd.Core.Tube.{tube_find}
use gostalkd.Machine.{World}
use gostalkd.Machine.Actions.{◌>>=◌}
use gostalkd.Core.Wal.Decode.{little_endian, read_full}
use gostalkd.Core.Wal.Decode.RoundTrip.{
  bytes_of, encode_rec, Fits, decode_rec-encode_rec, little_endian-bytes_of,
}
use gostalkd.Core.Wal.Replay.{read_rec, read_job_rec, read_state, restore, make_read, max_name_len}

take-front : (a s : Bytes) → take (length a) (a ++ s) ≡ a
take-front [] s = refl
take-front (x ∷ a) s = ap (◌∷◌ x) (take-front a s)

drop-front : (a s : Bytes) → drop (length a) (a ++ s) ≡ s
drop-front [] s = refl
drop-front (x ∷ a) s = drop-front a s

pub read_full-append : (a s : Bytes) → read_full (length a) (a ++ s) ≡ some (a, s)
unfolding read_full
read_full-append a s =
    let split = length-append a s in
    let enough : ltb (length (a ++ s)) (length a) ≡ false = ground (arith, split) in
    rw (read_full, enough, take-front a s, drop-front a s)

-- The bytes of a full record, before others.
abbrev pub record_bytes : Bytes → JobRec → Bytes → Bytes
record_bytes name r s = bytes_of 8 (length name) ++ (name ++ (encode_rec r ++ s))

-- ReadRec reads the name and the JobRec of a full record, whose numbers fit their fields and whose
-- name is short enough, and goes on behind its 81 bytes and those of the name.
pub read_rec-record_bytes :
    (w : World) (f l : ℕ) (name : Bytes) (r : JobRec) (s : Bytes)
    → Fits r
    → length name < max_name_len
    → read_rec f l (record_bytes name r s) w ≡ read_job_rec f l name r (81 + length name) s w
unfolding read_rec
read_rec-record_bytes w f l name r s fits short =
    let len : little_endian (bytes_of 8 (length name)) ≡ length name =
      little_endian-bytes_of 8 (length name) (omega arith) in
    let positive : slt (length name) 0 ≡ false = ground arith in
    let within : slt (length name) max_name_len ≡ true = ground arith in
    rw
      (
        read_rec,
        read_full-append (bytes_of 8 (length name)) (name ++ (encode_rec r ++ s)),
        len,
        positive,
        within,
        read_full-append name (encode_rec r ++ s),
        read_full-append (encode_rec r) s,
      )
      (ap (λ q. read_job_rec f l name q (81 + length name) s w) (decode_rec-encode_rec r fits))

-- A full record of a ready job, with an id above 0, numbers that fit their fields and a name of 1 to
-- 200 bytes, that is not known yet, not too big, and whose tube is not there, makes ReadRec panic.
pub read_rec-unknown_tube :
    (w : World) (f l : ℕ) (name : Bytes) (r : JobRec) (s : Bytes)
    → Fits r
    → length name < max_name_len
    → 0 < length name
    → 0 < r.id
    → r.state ≡ ready
    → slt w.max_job_size r.body_size ≡ false
    → job_find w.jobs r.id ≡ none
    → tube_find w.tubes name ≡ none
    → read_rec f l (record_bytes name r s) w ≡ none
unfolding read_job_rec read_state restore make_read
read_rec-unknown_tube w f l name r s fits short named some_id st small unknown no_tube =
    let id : (r.id == 0) ≡ false = ground arith in
    let full : (length name == 0) ≡ false = ground arith in
    read_rec-record_bytes w f l name r s fits short
    ∙ rw (read_job_rec, ◌>>=◌, id, unknown, full, st, small, no_tube)
