-- ===== src/Net/Stats.antt =====
-- net/prot.go: the texts of the statistics, fmtStats, fmtStatsJob and fmtStatsTube, by the formats
-- of constant.go. `%d` of an int64 is print_int, of an unsigned number decimal.
use gostalkd.Prelude.{
  ℕ, ◌+◌, ◌-◌, Bool, true, false, List, [], ◌∷◌, ◌++◌, Option, none, some, Bytes, codes, crlf, lf,
  if◌then◌else◌, sub64, positive, length, replicate,
}
use gostalkd.Utils.Str.Decimal.{decimal}
use gostalkd.Core.Job.{JobRec, JobState, reserved, delayed, state_name}
use gostalkd.Core.Tube.{Tube}
use gostalkd.Core.Wal.Record.{quot64}
use gostalkd.Machine.{
  World, Op, File, op_put, op_peek_job, op_peek_ready, op_peek_delayed, op_peek_buried, op_reserve,
  op_reserve_timeout, op_delete, op_release, op_use, op_watch, op_ignore, op_bury, op_kick,
  op_touch, op_stats, op_stats_job, op_stats_tube, op_list_tubes, op_list_tube_used,
  op_list_tubes_watched, op_pause_tube,
}
use gostalkd.Machine.Actions.{M, ◌>>=◌, return, read, now, deref, get_job, get_tube}
use gostalkd.Net.Reply.{print_int}

-- A line of a format: a name, and what stands for its `%d` or `%s`.
abbrev pub Row : Type 0
Row = Bytes × Bytes

abbrev pub row_text : Row → Bytes
row_text (name, value) = name ++ codes ": " ++ value ++ lf ∷ []

abbrev pub rows_text : List Row → Bytes
rows_text [] = []
rows_text (r ∷ rs) = row_text r ++ rows_text rs

-- The frame of all formats: "---\n", the lines and "\r\n".
abbrev pub report : List Row → Bytes
report rows = codes "---" ++ lf ∷ rows_text rows ++ crlf

-- `%06d` of a number that is not negative
abbrev pub padded : ℕ → Bytes
padded n = replicate (6 - length (decimal n)) b'0' ++ decimal n

abbrev pub print_bool : Bool → Bytes
print_bool true = codes "true"
print_bool false = codes "false"

abbrev pub second : ℕ
second = 1_000_000_000

abbrev pub seconds : ℕ → ℕ
seconds ns = quot64 ns second

-- getDelayedJobCt
unfoldable pub delayed_job_ct : (ℕ → Tube) → List ℕ → ℕ
delayed_job_ct at [] = 0
delayed_job_ct at (t ∷ ts) = length (at t).delay + delayed_job_ct at ts

-- uptime
unfoldable pub uptime : M ℕ
uptime = do u ← now; w ← read; return (seconds (sub64 u w.started_at))

-- the number of a log file, 0 for none
abbrev pub seq_of : (ℕ → File) → Option ℕ → ℕ
seq_of file none = 0
seq_of file (some f) = (file f).seq

-- the lines of StatsFmt on commands
abbrev pub command_rows : (Op → ℕ) → List Row
command_rows ct =
    (codes "cmd-put", print_int (ct op_put))
    ∷ (codes "cmd-peek", print_int (ct op_peek_job))
    ∷ (codes "cmd-peek-ready", print_int (ct op_peek_ready))
    ∷ (codes "cmd-peek-delayed", print_int (ct op_peek_delayed))
    ∷ (codes "cmd-peek-buried", print_int (ct op_peek_buried))
    ∷ (codes "cmd-reserve", print_int (ct op_reserve))
    ∷ (codes "cmd-reserve-with-timeout", print_int (ct op_reserve_timeout))
    ∷ (codes "cmd-delete", print_int (ct op_delete))
    ∷ (codes "cmd-release", print_int (ct op_release))
    ∷ (codes "cmd-use", print_int (ct op_use))
    ∷ (codes "cmd-watch", print_int (ct op_watch))
    ∷ (codes "cmd-ignore", print_int (ct op_ignore))
    ∷ (codes "cmd-bury", print_int (ct op_bury))
    ∷ (codes "cmd-kick", print_int (ct op_kick))
    ∷ (codes "cmd-touch", print_int (ct op_touch))
    ∷ (codes "cmd-stats", print_int (ct op_stats))
    ∷ (codes "cmd-stats-job", print_int (ct op_stats_job))
    ∷ (codes "cmd-stats-tube", print_int (ct op_stats_tube))
    ∷ (codes "cmd-list-tubes", print_int (ct op_list_tubes))
    ∷ (codes "cmd-list-tube-used", print_int (ct op_list_tube_used))
    ∷ (codes "cmd-list-tubes-watched", print_int (ct op_list_tubes_watched))
    ∷ (codes "cmd-pause-tube", print_int (ct op_pause_tube))
    ∷ []

-- the lines of StatsFmt before those on commands
abbrev pub job_rows : World → List Row
job_rows w =
    (codes "current-jobs-urgent", decimal w.stat.urgent_ct)
    ∷ (codes "current-jobs-ready", print_int w.ready_ct)
    ∷ (codes "current-jobs-reserved", decimal w.stat.reserved_ct)
    ∷ (codes "current-jobs-delayed", print_int (delayed_job_ct w.tubes.at w.tubes.tubes.items))
    ∷ (codes "current-jobs-buried", decimal w.stat.buried_ct)
    ∷ []

-- the lines of StatsFmt between those on commands and the time since the start; the value of
-- max-job-size is the address of the variable
abbrev pub server_rows : World → List Row
server_rows w =
    (codes "job-timeouts", decimal w.timeout_ct)
    ∷ (codes "total-jobs", decimal w.stat.total_jobs_ct)
    ∷ (codes "max-job-size", decimal w.outside.system.max_job_size_address)
    ∷ (codes "current-tubes", print_int (length w.tubes.tubes.items))
    ∷ (codes "current-connections", decimal w.cur_conn_ct)
    ∷ (codes "current-producers", decimal w.cur_producer_ct)
    ∷ (codes "current-workers", decimal w.cur_worker_ct)
    ∷ (codes "current-waiting", decimal w.stat.waiting_ct)
    ∷ (codes "total-connections", decimal w.total_conn_ct)
    ∷ (codes "pid", print_int w.outside.system.pid)
    ∷ (codes "version", w.outside.system.version)
    ∷ (
      codes "rusage-utime",
      print_int w.outside.system.user_seconds ++ b'.' ∷ padded w.outside.system.microseconds,
    )
    ∷ (
      codes "rusage-stime",
      print_int w.outside.system.system_seconds ++ b'.' ∷ padded w.outside.system.microseconds,
    )
    ∷ []

-- the lines of StatsFmt after the time since the start
abbrev pub log_rows : World → List Row
log_rows w =
    (codes "binlog-oldest-index", print_int (seq_of w.file w.wal.head))
    ∷ (codes "binlog-current-index", print_int (seq_of w.file w.wal.cur))
    ∷ (codes "binlog-records-migrated", print_int w.wal.nmig)
    ∷ (codes "binlog-records-written", print_int w.wal.nrec)
    ∷ (codes "binlog-max-size", print_int w.wal.file_size)
    ∷ (codes "draining", print_bool w.drain_mode)
    ∷ (codes "id", w.outside.system.instance_hex)
    ∷ (codes "hostname", w.outside.system.node_name)
    ∷ (codes "os", w.outside.system.os_version)
    ∷ (codes "platform", w.outside.system.hardware)
    ∷ []

-- fmtStats
unfoldable pub fmt_stats : M Bytes
unfolding uptime delayed_job_ct
fmt_stats = do
  t ← uptime
  w ← read
  return (
      report (
        job_rows w
        ++ command_rows w.op_ct
        ++ server_rows w
        ++ (codes "uptime", print_int t) ∷ log_rows w))

-- the states whose deadline fmtStatsJob looks at
abbrev pub has_deadline : JobState → Bool
has_deadline reserved = true
has_deadline delayed = true
has_deadline _ = false

-- StatsFmtJob
abbrev pub job_report : JobRec → Bytes → ℕ → ℕ → Bytes
job_report r tube_name t file_seq =
    let left = if has_deadline r.state then seconds (sub64 r.deadline_at t) else 0 in
    report (
      (codes "id", decimal r.id)
      ∷ (codes "tube", tube_name)
      ∷ (codes "state", state_name r.state)
      ∷ (codes "pri", decimal r.pri)
      ∷ (codes "age", print_int (seconds (sub64 t r.create_at)))
      ∷ (codes "delay", print_int (seconds r.delay))
      ∷ (codes "ttr", print_int (seconds r.ttr))
      ∷ (codes "time-left", print_int left)
      ∷ (codes "file", print_int file_seq)
      ∷ (codes "reserves", decimal r.reserve_ct)
      ∷ (codes "timeouts", decimal r.timeout_ct)
      ∷ (codes "releases", decimal r.release_ct)
      ∷ (codes "buries", decimal r.bury_ct)
      ∷ (codes "kicks", decimal r.kick_ct)
      ∷ [])

-- fmtStatsJob
unfoldable pub fmt_stats_job : ℕ → M Bytes
unfolding state_name
fmt_stats_job j = do
  u ← now
  x ← get_job j
  t ← deref x.tube
  tube ← get_tube t
  w ← read
  return (job_report x.r tube.name u (seq_of w.file x.file))

-- StatsFmtTube, with the time that a pause still lasts
abbrev pub tube_report : Tube → ℕ → Bytes
tube_report t left = report (
    (codes "name", t.name)
    ∷ (codes "current-jobs-urgent", decimal t.stat.urgent_ct)
    ∷ (codes "current-jobs-ready", print_int (length t.ready))
    ∷ (codes "current-jobs-reserved", decimal t.stat.reserved_ct)
    ∷ (codes "current-jobs-delayed", print_int (length t.delay))
    ∷ (codes "current-jobs-buried", decimal t.stat.buried_ct)
    ∷ (codes "total-jobs", decimal t.stat.total_jobs_ct)
    ∷ (codes "current-using", print_int t.using_ct)
    ∷ (codes "current-watching", print_int t.watching_ct)
    ∷ (codes "current-waiting", decimal t.stat.waiting_ct)
    ∷ (codes "cmd-delete", decimal t.stat.total_delete_ct)
    ∷ (codes "cmd-pause-tube", decimal t.stat.pause_ct)
    ∷ (codes "pause", print_int (seconds t.pause))
    ∷ (codes "pause-time-left", print_int left)
    ∷ [])

-- fmtStatsTube; the clock is read for a paused tube alone
unfoldable pub fmt_stats_tube : ℕ → M Bytes
fmt_stats_tube t = do
  tube ← get_tube t
  if positive tube.pause
      then (do u ← now; return (tube_report tube (seconds (sub64 tube.unpause_at u))))
      else return (tube_report tube 0)
