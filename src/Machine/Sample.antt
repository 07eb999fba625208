-- ===== src/Machine/Sample.antt =====
-- A small memory for tests: one tube at the address 0, whose list of buried jobs starts at the
-- address 9, jobs of that tube at all other addresses, in no list, and two log files.
use gostalkd.Prelude.{ltb, if◌then◌else◌, ℕ, ◌+◌, false, true, [], ◌∷◌, none, some, codes}
use gostalkd.Core.Job.{Job, Jobs, ready, zero_rec}
use gostalkd.Core.Tube.{Tube, Tubes, zero_stat}
use gostalkd.Machine.{World, Conn, File, Wal, System, opened, want_command, read_eof, wrote}

abbrev pub sample_job : ℕ → Job
sample_job a = record {
  r = record zero_rec { id = a; pri = a + 100; state = ready };
  tube = some 0;
  heap_index = 0;
  file = none;
  reservoir = none;
  wal_resv = 0;
  wal_used = 0;
  body = [];
}

abbrev pub sample_jobs : Jobs
sample_jobs = record {
  at = sample_job;
  links = record { prev = λ j. j; next = λ j. j };
  fresh = 20;
  all_jobs = λ id. none;
  next_job_id = 20;
  all_jobs_used = 0;
}

abbrev pub sample_tube : Tube
sample_tube = record {
  name = codes "default";
  ready = record { value = 1; index = 0 } ∷ record { value = 2; index = 1 } ∷ [];
  delay = record { value = 3; index = 0 } ∷ [];
  waiting_conns = record { last = 0; items = 5 ∷ [] };
  stat = zero_stat;
  using_ct = 1;
  watching_ct = 1;
  pause = 0;
  unpause_at = 0;
  buried = 9;
}

abbrev pub sample_tubes : Tubes
sample_tubes = record {
  at = λ t. sample_tube;
  fresh = 1;
  tubes = record { last = 0; items = 0 ∷ [] };
  default_tube = 0;
}

abbrev pub sample_conn : Conn
sample_conn = record {
  state = want_command;
  is_producer = false;
  is_worker = false;
  is_waiting = false;
  next = none;
  use_tube = some 0;
  tick_at = 0;
  tick_pos = 0;
  in_coons = false;
  soonest_job = none;
  rw = 0;
  pending_timeout = 0;
  half_closed = false;
  cmd = [];
  cmd_len = 0;
  cmd_read = 0;
  reply = [];
  reply_len = 0;
  reply_sent = 0;
  reply_buf = [];
  in_job_read = 0;
  in_job = none;
  out_job = none;
  out_job_sent = 0;
  watch = record { last = 0; items = 0 ∷ [] };
  reserved_jobs = 30;
}

abbrev pub sample_file : ℕ → File
sample_file a = record {
  next = none;
  refs = 1;
  seq = a;
  is_w_open = true;
  free = 500;
  resv = 100;
  job_list = [];
}

abbrev pub sample_wal : Wal
sample_wal = record {
  file_size = 1000;
  in_use = true;
  head = some 0;
  cur = some 0;
  tail = some 0;
  nfile = 1;
  next = 2;
  resv = 100;
  alive = 0;
  nmig = 0;
  nrec = 0;
  want_sync = false;
  sync_rate = 0;
  last_sync = 0;
}

abbrev pub sample_system : System
sample_system = record {
  pid = 7;
  version = codes "v1";
  user_seconds = 0;
  system_seconds = 0;
  microseconds = 0;
  instance_hex = codes "00";
  node_name = codes "node";
  os_version = codes "os";
  hardware = codes "machine";
  max_job_size_address = 4096;
}

abbrev pub sample_world : World
sample_world = record {
  jobs = sample_jobs;
  tubes = sample_tubes;
  conn = λ c. sample_conn;
  connes = [];
  epoll_q = none;
  wal = sample_wal;
  file = sample_file;
  fresh_file = 2;
  stat = zero_stat;
  ready_ct = 2;
  timeout_ct = 0;
  cur_conn_ct = 1;
  total_conn_ct = 1;
  fresh_conn = 20;
  started_at = 0;
  cur_worker_ct = 0;
  cur_producer_ct = 0;
  op_ct = λ o. 0;
  drain_mode = false;
  max_job_size = 65_535;
  outside = record {
    clock = λ n. 1000 + n;
    opening = λ n. opened;
    writing = λ n. true;
    min_seconds = λ a b. a;
    min_ns = λ a b. if ltb a b then a else b;
    wanting = λ n. true;
    listening = λ n. true;
    receiving = λ n size. read_eof;
    sending = λ n size. wrote size;
    spare = λ n. 0;
    system = sample_system;
  };
  readings = 0;
  writes = 0;
  requests = 0;
  asked = [];
}
