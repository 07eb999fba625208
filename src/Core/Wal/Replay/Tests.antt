-- ===== src/Core/Wal/Replay/Tests.antt =====
-- Records of the log, on concrete inputs.
use gostalkd.Prelude.{◌≡◌, refl, [], ◌++◌, crlf, some, none, codes, arith, Yields}
use gostalkd.Core.Job.{JobRec, zero_rec, ready, reserved, job_find}
use gostalkd.Core.Tube.{tube_find, find_loop}
use gostalkd.Machine.{World}
use gostalkd.Machine.Sample.{sample_world, sample_jobs}
use gostalkd.Core.Wal.Decode.{decode_rec}
use gostalkd.Core.Wal.Decode.RoundTrip.{Fits, encode_rec, decode_rec-encode_rec}
use gostalkd.Core.Wal.Replay.{read_rec}
use gostalkd.Core.Wal.Replay.Records.{record_bytes, read_rec-unknown_tube}
use gostalkd.Core.Wal.Replay.Full.{Restored, read_rec-Restored}
use gostalkd.Core.Wal.Replay.Short.{Updated, read_rec-Updated}

abbrev rec : JobRec
rec = record zero_rec { id = 5; pri = 300; state = ready }

rec-Fits : Fits rec
rec-Fits = record {
  id = omega arith;
  pri = omega arith;
  delay = omega arith;
  ttr = omega arith;
  body_size = omega arith;
  create_at = omega arith;
  deadline_at = omega arith;
  reserve_ct = omega arith;
  timeout_ct = omega arith;
  release_ct = omega arith;
  bury_ct = omega arith;
  kick_ct = omega arith;
  state = refl;
  byte = omega arith;
}

decode_rec-encode_rec_example : decode_rec (encode_rec rec) ≡ rec
decode_rec-encode_rec_example = decode_rec-encode_rec rec rec-Fits

read_rec-unknown_tube_example :
    read_rec 0 9 (record_bytes (codes "mail") rec []) sample_world ≡ none
unfolding job_find tube_find find_loop
read_rec-unknown_tube_example =
    read_rec-unknown_tube sample_world 0 9 (codes "mail") rec [] rec-Fits (omega arith)
      (omega arith) (omega arith) refl refl refl refl

abbrev known_world : World
known_world = record sample_world { jobs = record sample_jobs { all_jobs = λ id. some 3 } }

abbrev reserved_rec : JobRec
reserved_rec = record zero_rec { id = 3; state = reserved }

abbrev body_rec : JobRec
body_rec = record zero_rec { id = 5; body_size = 4; state = ready }

reserved_rec-Fits : Fits reserved_rec
reserved_rec-Fits = record {
  id = omega arith;
  pri = omega arith;
  delay = omega arith;
  ttr = omega arith;
  body_size = omega arith;
  create_at = omega arith;
  deadline_at = omega arith;
  reserve_ct = omega arith;
  timeout_ct = omega arith;
  release_ct = omega arith;
  bury_ct = omega arith;
  kick_ct = omega arith;
  state = refl;
  byte = omega arith;
}

read_rec-Updated_example :
    Yields
      (λ out.
        (out.0 ≡ some [])
        × Updated known_world 3 (record zero_rec { id = 3; state = ready }) 81 out.1)
      (read_rec 0 9 (record_bytes [] reserved_rec []) known_world)
unfolding job_find
read_rec-Updated_example =
    read_rec-Updated known_world 0 9 3 reserved_rec [] ready reserved_rec-Fits (omega arith) refl
      refl

body_rec-Fits : Fits body_rec
body_rec-Fits = record {
  id = omega arith;
  pri = omega arith;
  delay = omega arith;
  ttr = omega arith;
  body_size = omega arith;
  create_at = omega arith;
  deadline_at = omega arith;
  reserve_ct = omega arith;
  timeout_ct = omega arith;
  release_ct = omega arith;
  bury_ct = omega arith;
  kick_ct = omega arith;
  state = refl;
  byte = omega arith;
}

read_rec-Restored_example :
    Yields
      (λ out. (out.0 ≡ some []) × Restored 0 0 body_rec (codes "ab" ++ crlf) out.1 20)
      (read_rec 0 9 (record_bytes (codes "default") body_rec (codes "ab" ++ crlf)) sample_world)
unfolding job_find tube_find find_loop
read_rec-Restored_example =
    read_rec-Restored sample_world 0 9 0 (codes "default") body_rec (codes "ab" ++ crlf) []
      body_rec-Fits (omega arith) (omega arith) (omega arith) refl refl refl (omega arith) refl refl
