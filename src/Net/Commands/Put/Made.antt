-- ===== src/Net/Commands/Put/Made.antt =====
-- The job that net/prot.go's dispatchOpPut makes.
use gostalkd.Prelude.{
  ℕ, ◌+◌, ◌*◌, ◌%◌, ◌≤◌, ◌<◌, ◌≡◌, refl, ◌∙◌, ◌⊎◌, inl, inr, true, false, Bool-cases, some, Bytes,
  none, add64, mod32, slt, if◌then◌else◌, ◌==◌, ==_self, update, arith,
}
use gostalkd.Utils.Str.{int64_limit}
use gostalkd.Core.Job.{make_job_with_id}
use mathlib.Core.Logic.{ite, if_pos}
use gostalkd.Machine.{World, Op-discrete, op_put}
use gostalkd.Machine.Actions.{◌>>=◌, ◌>>◌, count_op}
use gostalkd.Net.Conn.{conn_set_producer}
use gostalkd.Net.Reply.{msg_job_too_big}
use gostalkd.Net.Commands.Put.{
  skip, make_in_job, fill_extra_data, maybe_enqueue_in_coming_job, dispatch_op_put,
}
use gostalkd.Net.Commands.Put.Parse.{put_text, dispatch_op_put-put_text}

-- What stands in the memory when the body of a job begins to be read: the connection is a producer
-- and has the job of the next address as its InJob; the job has the numbers of the command, the
-- priority cut to 32 bits, the times in nanoseconds with a time to run of at least a second, and
-- room for CR LF behind the body, and the connection's tube; the command is counted.
pub record PutJob (w : World) (c pri delay ttr size : ℕ) (after : World) : Type 0 where
  pub in_job : (after.conn c).in_job ≡ some w.jobs.fresh
  pub is_producer : (after.conn c).is_producer ≡ true
  pub cmd : (after.conn c).cmd ≡ (w.conn c).cmd
  pub has_pri : (after.jobs.at w.jobs.fresh).r.pri ≡ pri % mod32
  pub has_delay : (after.jobs.at w.jobs.fresh).r.delay ≡ delay * 1_000_000_000
  pub has_ttr :
      (after.jobs.at w.jobs.fresh).r.ttr ≡ (if ttr == 0 then 1_000_000_000 else ttr * 1_000_000_000)
  pub has_size : (after.jobs.at w.jobs.fresh).r.body_size ≡ size + 2
  pub has_tube : (after.jobs.at w.jobs.fresh).tube ≡ (w.conn c).use_tube
  pub counted : after.op_ct op_put ≡ add64 (w.op_ct op_put) 1

-- the memory with the job
abbrev made : World → ℕ → ℕ → ℕ → ℕ → ℕ → World
made w c pri delay ttr size =
    let x = w.conn c in
    let out =
      make_job_with_id w.jobs (w.outside.clock w.readings) (pri % mod32) delay
        (if slt ttr 1_000_000_000 then 1_000_000_000 else ttr) (add64 size 2) x.use_tube none in
    record w {
      readings = w.readings + 1;
      jobs = out.1;
      conn = update w.conn c (record x { in_job = some out.0 });
    }

make_in_job-made :
    (w : World) (c pri delay ttr size : ℕ)
    → make_in_job c pri delay ttr size w
      ≡ (fill_extra_data c >> maybe_enqueue_in_coming_job c) (made w c pri delay ttr size)
unfolding make_in_job
make_in_job-made w c pri delay ttr size = refl

-- the memory with the command counted
abbrev counted_put : World → World
counted_put w = record w {
  op_ct = λ o. ite (Op-discrete o op_put) (add64 (w.op_ct o) 1) (w.op_ct o);
}

-- and with the connection a producer
abbrev produced : World → ℕ → World
produced w c =
    let x = w.conn c in
    let w₁ = counted_put w in
    if x.is_producer then w₁ else record w₁ {
      conn = update w.conn c (record x { is_producer = true });
      cur_producer_ct = add64 w.cur_producer_ct 1;
    }

conn_set_producer-produced :
    (w : World) (c : ℕ) → conn_set_producer c (counted_put w) ≡ some (tt, produced w c)
unfolding conn_set_producer
conn_set_producer-produced w c = elim (Bool-cases (w.conn c).is_producer) [
  | inl e ↦ rw e refl
  | inr e ↦ rw e refl
]

at_least_second :
    (ttr : ℕ)
    → ttr ≤ 9_223_372_036
    → (if slt (ttr * 1_000_000_000) 1_000_000_000 then 1_000_000_000 else ttr * 1_000_000_000)
      ≡ (if ttr == 0 then 1_000_000_000 else ttr * 1_000_000_000)
at_least_second ttr h = elim (Bool-cases (ttr == 0)) [
  | inl e ↦
      (let q : slt (ttr * 1_000_000_000) 1_000_000_000 ≡ true = ground arith in rw (q, e) refl)
  | inr e ↦
      (let q : slt (ttr * 1_000_000_000) 1_000_000_000 ≡ false = ground arith in rw (q, e) refl)
]

made-PutJob :
    (w : World) (c pri delay ttr size : ℕ)
    → ttr ≤ 9_223_372_036
    → size < int64_limit
    → PutJob w c pri delay ttr size
        (made (produced w c) c pri (delay * 1_000_000_000) (ttr * 1_000_000_000) size)
unfolding make_job_with_id
made-PutJob w c pri delay ttr size h lt =
    let sum : add64 size 2 ≡ size + 2 = omega (arith, lt) in
    let least = at_least_second ttr h in
    elim (Bool-cases (w.conn c).is_producer) [
      | inl e ↦ rw e record {
        in_job = rw (==_self c) refl;
        is_producer = rw (==_self c) e;
        cmd = rw (==_self c) refl;
        has_pri = rw (==_self w.jobs.fresh) refl;
        has_delay = rw (==_self w.jobs.fresh) refl;
        has_ttr = rw (==_self w.jobs.fresh) least;
        has_size = rw (==_self w.jobs.fresh) sum;
        has_tube = rw (==_self w.jobs.fresh) refl;
        counted =
            if_pos (Op-discrete op_put op_put) refl (add64 (w.op_ct op_put) 1) (w.op_ct op_put);
      }
      | inr e ↦ rw e record {
        in_job = rw (==_self c) refl;
        is_producer = rw (==_self c) refl;
        cmd = rw (==_self c) refl;
        has_pri = rw (==_self w.jobs.fresh) refl;
        has_delay = rw (==_self w.jobs.fresh) refl;
        has_ttr = rw (==_self w.jobs.fresh) least;
        has_size = rw (==_self w.jobs.fresh) sum;
        has_tube = rw (==_self w.jobs.fresh, ==_self c) refl;
        counted =
            if_pos (Op-discrete op_put op_put) refl (add64 (w.op_ct op_put) 1) (w.op_ct op_put);
      }
    ]

-- For a put command printed in decimal notation, with numbers below 2 ^ 63 and times of at most
-- 9_223_372_036 seconds, dispatchOpPut counts the command, and skips a body above the limit and its
-- CR LF with JOB_TOO_BIG; else it goes on to read the body, with the connection a producer and, as
-- its InJob, a job of its tube with the priority modulo 2 ^ 32, the times in nanoseconds but a time
-- to run of at least a second, and the size with CR LF.
pub dispatch_op_put-PutJob :
    (w : World) (c pri delay ttr size : ℕ) (rest : Bytes)
    → (w.conn c).cmd ≡ put_text pri delay ttr size rest
    → pri < int64_limit
    → delay ≤ 9_223_372_036
    → ttr ≤ 9_223_372_036
    → size < int64_limit
    → ((slt w.max_job_size size ≡ true)
        × (dispatch_op_put c w ≡ (count_op op_put >> skip c (size + 2) msg_job_too_big) w))
      ⊎ ((slt w.max_job_size size ≡ false)
          × ((after : World) × (dispatch_op_put c w
                ≡ (fill_extra_data c >> maybe_enqueue_in_coming_job c) after)
              × PutJob w c pri delay ttr size after))
dispatch_op_put-PutJob w c pri delay ttr size rest text lt₁ le₂ le₃ lt₄ =
    let whole = dispatch_op_put-put_text w c pri delay ttr size rest text lt₁ le₂ le₃ lt₄ in
    let sum : add64 size 2 ≡ size + 2 = omega (arith, lt₄) in
    elim (Bool-cases (slt w.max_job_size size)) [
      | inl e ↦ inl (e, whole ∙ rw (e, sum) refl)
      | inr e ↦ inr (
        e,
        (
          _,
          whole
              ∙ rw (e, ◌>>◌, ◌>>=◌, conn_set_producer-produced w c)
                  (make_in_job-made (produced w c) c pri _ _ size),
          made-PutJob w c pri delay ttr size le₃ lt₄,
        ),
      )
    ]
