-- ===== src/Setup.antt =====
-- utils/options.go: OptParse; main.go: main. What the system answers is an argument; the flags are read
-- beforehand, and setting the handlers of signals changes nothing of the memory.
pub mod Limit
mod Tests
use gostalkd.Prelude.{
  ℕ, ◌+◌, ◌*◌, ◌%◌, ◌^◌, Bool, true, false, not, ◌&&◌, List, [], ◌∷◌, Option, none, some, Bytes,
  mod64, if◌then◌else◌, slt,
}
use gostalkd.Machine.Actions.{
  M, ◌>>=◌, ◌>>◌, return, done, panic, modify, when, change_wal, on_option,
}
use gostalkd.Core.Wal.Lock.{LockAnswers, wal_dir_lock}
use gostalkd.Core.Wal.Scan.{Dir}
use gostalkd.Net.Serve.{Accepted}
use gostalkd.Net.Sockets.{Pointed, null, Next}
use gostalkd.Net.Start.{
  Listener, NewServer, failed, neither, made, new_server, with_port, with_addr, with_user,
  start_loop, srv_acquire_wal,
}

-- the flags of utils/options.go
pub record Flags : Type 0 where
  pub port : ℕ
  pub bing_log_dir : Bytes
  pub fsync_ms : ℕ
  pub fsync_never : Bool
  pub listen_addr : Bytes
  pub user : Bytes
  pub max_job_size : ℕ
  pub each_write_ahead_log_size : ℕ
  pub show_version : Bool
  pub log_level : Bytes

-- JobDataSizeLimitMax
abbrev pub job_data_size_limit_max : ℕ
job_data_size_limit_max = 1_073_741_824

abbrev pub is_empty : Bytes → Bool
is_empty [] = true
is_empty (c ∷ s) = false

-- What the system says of a level of the log and of a user: whether logger.MustParseLevel takes the
-- level, and whether su goes well.
pub record Known : Type 0 where
  pub level : Bytes → Bool
  pub user : Bytes → Bool

-- the part of OptParse behind the level of the log; the result is the directory of the log, empty for
-- none
unfoldable pub set_options : Known → Flags → M Bytes
set_options known f = do
  modify (λ w. record w { max_job_size = f.max_job_size })
  when (slt job_data_size_limit_max f.max_job_size)
      (modify (λ w. record w { max_job_size = job_data_size_limit_max }))
  change_wal (λ x. record x {
    file_size = f.each_write_ahead_log_size;
    sync_rate = f.fsync_ms * 1_000_000 % mod64;
    want_sync = true;
  })
  when f.fsync_never (change_wal (λ x. record x { want_sync = false }))
  when (not (is_empty f.user) && not (known.user f.user)) panic
  when (not (is_empty f.bing_log_dir)) (change_wal (λ x. record x { in_use = true }))
  return f.bing_log_dir

-- OptParse of a server; the result is `none` if the process exits
unfoldable pub opt_parse : Known → Flags → M (Option Bytes)
unfolding set_options
opt_parse known f =
    if f.show_version
    then return none
    else if not (known.level f.log_level)
    then panic
    else (do dir ← set_options known f; return (some dir))

-- how a run of main begins, with the answers of the system: for the listener, for its file, for
-- sockWant, for the lock, and for the directory of the log by its name
pub record Setting : Type 0 where
  pub listen : Listener → Bool
  pub opened : Bool
  pub wanted : Bool
  pub lock : LockAnswers
  pub parse_int : Bytes → Option ℕ
  pub content : Bytes → ℕ → Option Bytes
  pub dir : Bytes → Dir
  pub list : ℕ

-- main with a server, for the first rounds of Start
unfoldable pub run : Known → Flags → Setting → List ((ℕ → Pointed → Next) × Accepted) → M (Unit {0})
unfolding opt_parse wal_dir_lock srv_acquire_wal start_loop
run known f s rounds = do
  parsed ← opt_parse known f
  on_option parsed done (λ dir. (do
    srv_acquire_wal (wal_dir_lock s.lock dir) s.parse_int (s.content dir) (s.dir dir) s.list
    start_loop rounds null))

-- main behind NewServer; where that gives neither a server nor an error, OptParse exits for -v and
-- else writes through a nil pointer
unfoldable pub begin :
    Known → Flags → Setting → List ((ℕ → Pointed → Next) × Accepted) → NewServer → M (Unit {0})
unfolding run
begin known f s rounds failed = panic
begin known f s rounds neither = if f.show_version then done else panic
begin known f s rounds (made o l) = run known f s rounds

-- main
unfoldable pub main :
    Known → Flags → Setting → List ((ℕ → Pointed → Next) × Accepted) → M (Unit {0})
unfolding new_server begin
main known f s rounds =
    let options = with_port f.port ∷ with_addr f.listen_addr ∷ with_user f.user ∷ [] in
    begin known f s rounds (new_server options s.listen s.opened s.wanted)
