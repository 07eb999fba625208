-- ===== src/Net/Commands/Put.antt =====
-- net/prot.go: dispatchOpPut, fillExtraData and skip; net/serv.go: what becomes of a job whose body
-- has been read. The socket of a connection that runs a command is open.
pub mod Body
pub mod Parse
pub mod Made
use gostalkd.Prelude.{
  ℕ, ◌-◌, Bool, true, false, ◌||◌, not, [], ◌∷◌, ◌++◌, Option, none, some, Bytes, codes, cr, lf,
  crlf, ltb, ◌==◌, if◌then◌else◌, add64, sub64, slt, positive, mod32, ◌%◌, length, take, drop,
  get_elem?,
}
use gostalkd.Utils.Str.{parsed, fmt_error, panics, read_duration}
use gostalkd.Utils.Str.Decimal.{decimal}
use gostalkd.Core.Job.{make_job_with_id, job_free}
use gostalkd.Core.Bury.{bury_job}
use gostalkd.Core.Wal.Space.{wal_resv_put}
use gostalkd.Machine.{send_word, bitbucket, want_data, op_put}
use gostalkd.Machine.Actions.{
  M, ◌>>=◌, ◌>>◌, return, done, panic, read, modify, deref, lift, now, get_job, change_job,
  change_jobs, change_tube_stat, change_stat, get_conn, change_conn, count_op,
}
use gostalkd.Net.Conn.{conn_set_producer}
use gostalkd.Net.Reply.{
  reply, reply_msg, reply_err, reply_line, msg_bad_format, msg_expected_crlf, msg_draining,
  msg_internal_error, msg_out_of_memory, msg_job_too_big,
}
use gostalkd.Net.Queue.{enqueue_job}
use gostalkd.Net.Commands.{on_parsed, cmd_from, with_int}

-- the slice `s[a : b]`, which panics if it is not inside `s`; CmdRead is not above the length of
-- Cmd where it is cut, so what a slice has behind its length is never reached
abbrev pub slice : Bytes → ℕ → ℕ → Option Bytes
slice s a b = if ltb b a || ltb (length s) b then none else some (take (b - a) (drop a s))

-- math.Min of two int64 as floats: exact where one of them is the number of bytes of a buffer
abbrev pub min_int : ℕ → ℕ → ℕ
min_int a b = if slt a b then a else b

-- the branch of fillExtraData: what of the bytes behind the command belongs to the job that is
-- read, or is thrown away
unfoldable pub take_body : ℕ → ℕ → M ℕ
take_body c extra = do
  x ← get_conn c
  elim x.in_job [
    | some j ↦ (do
      y ← get_job j
      let n = min_int extra y.r.body_size
      body ← lift (slice x.cmd x.cmd_len (add64 x.cmd_len n))
      change_job j (λ z. record z { body = body })
      change_conn c (λ z. record z { in_job_read = n })
      return n)
    | none ↦ if not (positive x.in_job_read) then return 0 else (do
      let n = min_int extra x.in_job_read
      change_conn c (λ z. record z { in_job_read = sub64 z.in_job_read n })
      return n)
  ]

-- fillExtraData
unfoldable pub fill_extra_data : ℕ → M (Unit {0})
unfolding take_body
fill_extra_data c = do
  x ← get_conn c
  if x.cmd_len == 0 then done else (do
    let extra = sub64 x.cmd_read x.cmd_len
    n ← take_body c extra
    let rest = sub64 extra n
    let at = add64 x.cmd_len n
    cmd ← lift (slice x.cmd at (add64 at rest))
    change_conn c (λ z. record z { cmd = cmd; cmd_read = rest; cmd_len = 0 }))

-- skip
unfoldable pub skip : ℕ → ℕ → Bytes → M (Unit {0})
unfolding fill_extra_data reply
skip c n msg = do
  change_conn c (λ x. record x { in_job = none; in_job_read = n })
  fill_extra_data c
  x ← get_conn c
  if x.in_job_read == 0
      then reply c msg (length msg) send_word
      else change_conn c
          (λ z. record z { reply = msg; reply_len = length msg; reply_sent = 0; state = bitbucket })

-- bytes.Index(s, "\r\n") != -1
unfoldable pub has_crlf : Bytes → Bool
has_crlf [] = false
has_crlf (a ∷ s) =
    let later = has_crlf s in
    let here : Bool = elim s [ [] ↦ false | b ∷ _ ↦ if a == cr then b == lf else false ] in
    if here then true else later

-- enqueueInComingJob, from the call of enqueueJob on
unfoldable pub insert_job : ℕ → ℕ → M (Unit {0})
unfolding enqueue_job bury_job reply_line reply_err
insert_job c j = do
  x ← get_job j
  r ← enqueue_job j x.r.delay true
  if slt r 0 then reply_err c msg_internal_error else (do
    change_stat (λ s. record s { total_jobs_ct = add64 s.total_jobs_ct 1 })
    y ← get_job j
    t ← deref y.tube
    change_tube_stat t (λ s. record s { total_jobs_ct = add64 s.total_jobs_ct 1 })
    let number = decimal y.r.id ++ crlf
    if r == 1
        then reply_line c send_word (codes "INSERTED " ++ number)
        else (do buried ← bury_job j false; reply_line c send_word (codes "BURIED " ++ number)))

-- enqueueInComingJob
unfoldable pub enqueue_in_coming_job : ℕ → M (Unit {0})
unfolding has_crlf job_free wal_resv_put insert_job reply_msg reply_err
enqueue_in_coming_job c = do
  x ← get_conn c
  change_conn c (λ z. record z { in_job = none; in_job_read = 0 })
  j ← deref x.in_job
  y ← get_job j
  w ← read
  if not (has_crlf y.body)
      then (do change_jobs (λ js. job_free js (some j)); reply_msg c msg_expected_crlf)
      else if w.drain_mode
      then (do change_jobs (λ js. job_free js (some j)); reply_err c msg_draining)
      else if positive y.wal_resv
      then reply_err c msg_internal_error
      else (do
        z ← wal_resv_put j
        change_job j (λ k. record k { wal_resv = z })
        if z == 0 then reply_err c msg_out_of_memory else insert_job c j)

-- maybeEnqueueInComingJob
unfoldable pub maybe_enqueue_in_coming_job : ℕ → M (Unit {0})
unfolding enqueue_in_coming_job
maybe_enqueue_in_coming_job c = do
  x ← get_conn c
  j ← deref x.in_job
  y ← get_job j
  if x.in_job_read == y.r.body_size
      then enqueue_in_coming_job c
      else change_conn c (λ z. record z { state = want_data })

-- utils.ReadDuration(c.Cmd[idx:], &idx); on an error the handler replies BAD_FORMAT and returns
unfoldable pub with_duration : ℕ → ℕ → (ℕ → ℕ → M (Unit {0})) → M (Unit {0})
unfolding read_duration on_parsed
with_duration c idx k = do buf ← cmd_from c idx; on_parsed c (read_duration buf idx) k

-- dispatchOpPut, from the making of the job on
unfoldable pub make_in_job : ℕ → ℕ → ℕ → ℕ → ℕ → M (Unit {0})
unfolding make_job_with_id fill_extra_data maybe_enqueue_in_coming_job
make_in_job c pri delay ttr body_size = do
  let ttr' = if slt ttr 1_000_000_000 then 1_000_000_000 else ttr
  x ← get_conn c
  u ← now
  w ← read
  let (j, js) =
      make_job_with_id w.jobs u (pri % mod32) delay ttr' (add64 body_size 2) x.use_tube none
  modify (λ v. record v { jobs = js })
  change_conn c (λ z. record z { in_job = some j })
  fill_extra_data c
  maybe_enqueue_in_coming_job c

-- dispatchOpPut; "put " has 4 bytes
unfoldable pub dispatch_op_put : ℕ → M (Unit {0})
unfolding with_int with_duration skip conn_set_producer make_in_job reply_msg
dispatch_op_put c = with_int c 4 λ pri i₁. with_duration c i₁ λ delay i₂.
    with_duration c i₂ λ ttr i₃. with_int c i₃ λ body_size idx. do
      count_op op_put
      w ← read
      if slt w.max_job_size body_size then skip c (add64 body_size 2) msg_job_too_big else (do
        x ← get_conn c
        end ← lift (get_elem? x.cmd idx)
        if not (end == cr)
            then reply_msg c msg_bad_format
            else (do conn_set_producer c; make_in_job c pri delay ttr body_size))
