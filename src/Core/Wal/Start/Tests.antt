-- ===== src/Core/Wal/Start/Tests.antt =====
-- The rounds of FileRead, on a concrete input.
use gostalkd.Prelude.{◌+◌, ◌≡◌, [], length, codes, arith, Bytes}
use gostalkd.Core.Job.{zero_rec, ready}
use gostalkd.Machine.Actions.{done}
use gostalkd.Machine.Sample.{sample_world}
use gostalkd.Core.Wal.Replay.{read_rec, read_rec5}
use gostalkd.Core.Wal.Replay.Records.{record_bytes}
use gostalkd.Core.Wal.Start.{read_loop, read_recs}
use gostalkd.Core.Wal.Start.Rounds.{read_recs-enough}

-- a log of one record
abbrev one_record : Bytes
one_record = record_bytes (codes "mail") (record zero_rec { id = 5; state = ready }) []

read_recs-enough_example :
    (read_loop done 87 (read_rec 0 9) one_record sample_world
      ≡ read_recs (length one_record + 1) (read_rec 0 9) one_record sample_world)
    × (read_loop done 87 (read_rec5 0 9) one_record sample_world
        ≡ read_recs (length one_record + 1) (read_rec5 0 9) one_record sample_world)
read_recs-enough_example = read_recs-enough done 0 9 87 one_record sample_world (omega arith)
