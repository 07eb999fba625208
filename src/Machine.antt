-- ===== src/Machine.antt =====
-- The memory of the server, of the types of model/ and the package variables of core/, net/ and
-- utils/, and the actions on it. An action may panic: `none` stands for a panic and for a loop
-- that does not end. What the process is not told by its own code comes from `outside`.
pub mod Actions
pub mod Sample
pub mod Laws
pub mod Frame
pub mod Within
use gostalkd.Prelude.{ℕ, ◌+◌, Bool, true, false, List, Option, none, some, Bytes, update}
use gostalkd.Structure.Heap.{Item}
use gostalkd.Structure.Ms.{Ms}
use gostalkd.Core.Job.{Job, Jobs}
use gostalkd.Core.Tube.{Tube, Tubes, Stat}

-- The states of a connection.
pub data ConnState : Type 0 where
  want_command want_data send_job send_word wait bitbucket close want_end_line : ConnState

-- The operations that are counted.
pub data Op : Type 0 where
  op_unknown op_put op_peek_job op_reserve op_delete op_release op_bury op_kick op_stats : Op
  op_stats_job op_peek_buried op_use op_watch op_ignore op_list_tubes op_list_tube_used : Op
  op_list_tubes_watched op_stats_tube op_peek_ready op_peek_delayed op_reserve_timeout : Op
  op_touch op_quit op_pause_tube op_kick_job op_reserve_job : Op

pub Op-discrete : Discrete Op
Op-discrete = hlevel

-- model.Coon, without the socket; Type is its three bits, InCoons a Boolean, an int64 or int its
-- bit pattern
pub record Conn : Type 0 where
  pub state : ConnState
  pub is_producer : Bool
  pub is_worker : Bool
  pub is_waiting : Bool
  pub next : Option ℕ
  pub use_tube : Option ℕ
  pub tick_at : ℕ
  pub tick_pos : ℕ
  pub in_coons : Bool
  pub soonest_job : Option ℕ
  pub rw : ℕ
  pub pending_timeout : ℕ
  pub half_closed : Bool
  pub cmd : Bytes
  pub cmd_len : ℕ
  pub cmd_read : ℕ
  pub reply : Bytes
  pub reply_len : ℕ
  pub reply_sent : ℕ
  pub reply_buf : Bytes
  pub in_job_read : ℕ
  pub in_job : Option ℕ
  pub out_job : Option ℕ
  pub out_job_sent : ℕ
  pub watch : Ms ℕ
  pub reserved_jobs : ℕ

-- model.File: its list of jobs is the ring of FPre and FNext, here the list from the first to the
-- last; the path and the handle are the file system's
pub record File : Type 0 where
  pub next : Option ℕ
  pub refs : ℕ
  pub seq : ℕ
  pub is_w_open : Bool
  pub free : ℕ
  pub resv : ℕ
  pub job_list : List ℕ

-- model.Wal
pub record Wal : Type 0 where
  pub file_size : ℕ
  pub in_use : Bool
  pub head : Option ℕ
  pub cur : Option ℕ
  pub tail : Option ℕ
  pub nfile : ℕ
  pub next : ℕ
  pub resv : ℕ
  pub alive : ℕ
  pub nmig : ℕ
  pub nrec : ℕ
  pub want_sync : Bool
  pub sync_rate : ℕ
  pub last_sync : ℕ

-- How opening and allocating a log file and writing its version ends.
pub data Opening : Type 0 where
  opened refused version_panics : Opening

-- How reading from a socket ends: with an error, at the end of the stream, or with bytes.
pub data Receipt : Type 0 where
  read_failed read_eof : Receipt
  read_bytes : Bytes → Receipt

-- How writing to a socket ends: with an error, or with the number of bytes written.
pub data Sending : Type 0 where
  write_failed : Sending
  wrote : ℕ → Sending

-- What the statistics say of the process and of the machine it runs on, and the address of the
-- variable MaxJobSize.
pub record System : Type 0 where
  pub pid : ℕ
  pub version : Bytes
  pub user_seconds : ℕ
  pub system_seconds : ℕ
  pub microseconds : ℕ
  pub instance_hex : Bytes
  pub node_name : Bytes
  pub os_version : Bytes
  pub hardware : Bytes
  pub max_job_size_address : ℕ

-- What comes from outside, one answer for each question asked: the clock; whether the file of a
-- number can be opened; whether a write succeeds; `math.Min` of an int64 and a number of seconds,
-- as floats, in nanoseconds, and of two int64; and, for sockets, whether the event queue takes a
-- request, whether a file can be listened on, what reading and writing gives, by the size of the
-- buffer, and the capacity of a body's slice behind its length.
pub record Outside : Type 0 where
  pub clock : ℕ → ℕ
  pub opening : ℕ → Opening
  pub writing : ℕ → Bool
  pub min_seconds : ℕ → ℕ → ℕ
  pub min_ns : ℕ → ℕ → ℕ
  pub wanting : ℕ → Bool
  pub listening : ℕ → Bool
  pub receiving : ℕ → ℕ → Receipt
  pub sending : ℕ → ℕ → Sending
  pub spare : ℕ → ℕ
  pub system : System

-- utils.GlobalState is `stat`; `asked` holds what sockWant has been called with, the address of a
-- connection and the byte, in turn.
pub record World : Type 0 where
  pub jobs : Jobs
  pub tubes : Tubes
  pub conn : ℕ → Conn
  pub connes : List (Item ℕ)
  pub epoll_q : Option ℕ
  pub wal : Wal
  pub file : ℕ → File
  pub fresh_file : ℕ
  pub stat : Stat
  pub ready_ct : ℕ
  pub timeout_ct : ℕ
  pub cur_conn_ct : ℕ
  pub total_conn_ct : ℕ
  pub fresh_conn : ℕ
  pub started_at : ℕ
  pub cur_worker_ct : ℕ
  pub cur_producer_ct : ℕ
  pub op_ct : Op → ℕ
  pub drain_mode : Bool
  pub max_job_size : ℕ
  pub outside : Outside
  pub readings : ℕ
  pub writes : ℕ
  pub requests : ℕ
  pub asked : List (ℕ × ℕ)
