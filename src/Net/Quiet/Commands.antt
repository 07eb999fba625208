-- ===== src/Net/Quiet/Commands.antt =====
-- What dispatchCmd of net/prot.go may do to lines and numbers: by fillExtraData, and by what the
-- handlers of use, watch and ignore do with their tubes.
use gostalkd.Prelude.{
  ℕ, Bool, Bytes, refl, add64, length, not, codes, crlf, ◌++◌, ◌==◌, if◌then◌else◌,
}
use mathlib.Core.Logic.{ite}
use gostalkd.Utils.Str.{Parsed, parsed, fmt_error, panics}
use gostalkd.Machine.{
  Op-discrete, World, send_word, bitbucket, Op, op_unknown, op_put, op_peek_job, op_peek_ready,
  op_peek_delayed, op_peek_buried, op_reserve, op_reserve_timeout, op_reserve_job, op_delete,
  op_release, op_bury, op_kick, op_kick_job, op_touch, op_stats, op_stats_job, op_stats_tube,
  op_list_tubes, op_list_tube_used, op_list_tubes_watched, op_use, op_watch, op_ignore, op_quit,
  op_pause_tube,
}
use gostalkd.Machine.Actions.{M, ◌>>=◌, get_conn, get_tube, change_conn}
use gostalkd.Machine.Frame.{
  Quiet, Quiets, quiet, Ends, Quiet-conn, Quiet-same, Quiet-trans, Quiets-get_conn,
}
use gostalkd.Machine.Within.{Within, Within-quiet, Within-bind, Within-test, Ends-bind, Ends-mono}
use gostalkd.Net.Quiet.Conns.{
  reply-quiet, reply_msg-quiet, reply_line-quiet, conn_set_producer-quiet,
}
use gostalkd.Net.Quiet.Bodies.{maybe_enqueue_in_coming_job-quiet}
use gostalkd.Net.Quiet.Lists.{reply_watching-quiet}
use gostalkd.Net.Reply.{reply, reply_line, reply_msg, msg_not_ignored}
use gostalkd.Net.Commands.{on_parsed, with_int}
use gostalkd.Net.Commands.Tubes.{
  with_name, with_valid_name, find_or_make, use_tube, watch_tube, ignore_tube, reply_watching,
  dispatch_op_use, dispatch_op_watch, dispatch_op_ignore,
}
use gostalkd.Net.Commands.Put.{fill_extra_data, skip, make_in_job, with_duration, dispatch_op_put}
use gostalkd.Net.Commands.Dispatch.{dispatch_op, dispatch_cmd}
use gostalkd.Net.Quiet.Dispatch.{dispatch_op-quiet}

-- the memory after an operation has been counted
abbrev counted : Op → World → World
counted op w = record w { op_ct = λ o. ite (Op-discrete o op) (add64 (w.op_ct o) 1) (w.op_ct o) }

-- the replies of use and ignore
say_using :
    (c t : ℕ)
    → Quiets (do tube ← get_tube t; reply_line c send_word (codes "USING " ++ (tube.name ++ crlf)))
say_using c t = search (reply_line-quiet, quiet) depth 60 fits 4000

say_ignored :
    (c : ℕ) (b : Bool) → Quiets (if not b then reply_msg c msg_not_ignored else reply_watching c)
say_ignored c b = search (reply_msg-quiet, reply_watching-quiet, quiet)

-- the end of skip
skipped :
    (c : ℕ) (msg : Bytes)
    → Quiets (do
      x ← get_conn c
      if x.in_job_read == 0
          then reply c msg (length msg) send_word
          else change_conn c (λ z. record z {
            reply = msg;
            reply_len = length msg;
            reply_sent = 0;
            state = bitbucket;
          }))
skipped c msg = search (reply-quiet, quiet) depth 60 fits 4000

module _ (R : World → World → Type 0) (sub : (v w : World) → Quiet v w → R v w)
    (trans : (u v w : World) → R u v → R v w → R u w) (c : ℕ) where
  still : {A : Type 0} {m : M A} → Quiets m → Within R m
  still = Within-quiet R sub trans

  seq :
      {A B : Type 0} {m : M A} {f : A → M B}
      → Within R m
      → ((a : A) → Within R (f a))
      → Within R (m >>= f)
  seq = Within-bind R sub trans

  on_parsed-Within :
      {A : Type 0} (p : Parsed (A × ℕ)) (k : A → ℕ → M (Unit {0}))
      → ((a : A) (i : ℕ) → Within R (k a i))
      → Within R (on_parsed c p k)
  unfolding on_parsed
  on_parsed-Within (parsed (a, i)) k h = h a i
  on_parsed-Within fmt_error k h = still (reply_msg-quiet c _)
  on_parsed-Within panics k h = still (search quiet)

  with_int-Within :
      (idx : ℕ) (k : ℕ → ℕ → M (Unit {0}))
      → ((n i : ℕ) → Within R (k n i))
      → Within R (with_int c idx k)
  unfolding with_int
  with_int-Within idx k h = search (seq, on_parsed-Within, still, quiet) depth 60 fits 4000

  with_duration-Within :
      (idx : ℕ) (k : ℕ → ℕ → M (Unit {0}))
      → ((n i : ℕ) → Within R (k n i))
      → Within R (with_duration c idx k)
  unfolding with_duration
  with_duration-Within idx k h = search (seq, on_parsed-Within, still, quiet) depth 60 fits 4000

  with_valid_name-Within :
      (idx : ℕ) (k : Bytes → M (Unit {0}))
      → ((n : Bytes) → Within R (k n))
      → Within R (with_valid_name c idx k)
  unfolding with_valid_name with_name
  with_valid_name-Within idx k h =
      search (seq, on_parsed-Within, Within-test, still, reply_msg-quiet, quiet) depth 60 fits 4000

  -- `Known` is what is known of a tube that the handlers of use and watch have.
  module _ (filled : Within R (fill_extra_data c)) (Known : World → ℕ → Type 0)
      (found : (name : Bytes) (w : World)
        → Ends (λ out. R w out.1 × Known out.1 out.0) (find_or_make name w))
      (used : (t : ℕ) (w : World) → Known w t → Ends (λ out. R w out.1) (use_tube c t w))
      (watched : (t : ℕ) (w : World) → Known w t → Ends (λ out. R w out.1) (watch_tube c t w))
      (ignored : (name : Bytes) → Within R (ignore_tube c name)) where
    -- what is done around fillExtraData
    around_fill :
        (m : M (Unit {0})) (v w : World)
        → Quiet v w
        → Quiets m
        → Ends (λ out. R v out.1) ((fill_extra_data c >>= λ _. m) w)
    around_fill m v w before after =
        Ends-bind (λ _. m) (fill_extra_data c) w (filled.at w)
          λ a u r.
            Ends-mono (after.at u) λ b x q. trans v w x (sub v w before) (trans w u x r (sub u x q))

    skip-Within : (n : ℕ) (msg : Bytes) → Within R (skip c n msg)
    unfolding skip
    skip-Within n msg = record {
      at = λ w. around_fill _ w _ (Quiet-conn w c _ refl) (skipped c msg);
    }

    make_in_job-Within :
        (pri delay ttr body_size : ℕ) → Within R (make_in_job c pri delay ttr body_size)
    unfolding make_in_job
    make_in_job-Within pri delay ttr body_size = record {
      at = λ w.
          around_fill _ w _ (Quiet-trans (Quiet-same refl refl refl) (Quiet-conn _ c _ refl))
            (maybe_enqueue_in_coming_job-quiet c);
    }

    put-Within : Within R (dispatch_op_put c)
    unfolding dispatch_op_put
    put-Within =
        search
          (
            with_int-Within, with_duration-Within, seq, Within-test, skip-Within,
            make_in_job-Within, still, reply_msg-quiet, conn_set_producer-quiet, quiet,
          )
          depth 80 fits 8000

    -- what is done around a handler's work on a tube
    around_tube :
        (name : Bytes) (m n : ℕ → M (Unit {0})) (v w : World)
        → ((t : ℕ) (u : World) → Known u t → Ends (λ out. R u out.1) (m t u))
        → Quiet v w
        → ((t : ℕ) → Quiets (n t))
        → Ends (λ out. R v out.1) ((find_or_make name >>= λ t. m t >>= λ _. n t) w)
    around_tube name m n v w works before after =
        Ends-bind _ (find_or_make name) w (found name w) λ t u r.
          Ends-bind (λ _. n t) (m t) u (works t u r.1)
            λ a x q.
              Ends-mono ((after t).at x)
                λ b y p. trans v w y (sub v w before) (trans w u y r.0 (trans u x y q (sub x y p)))

    use-Within : Within R (dispatch_op_use c)
    unfolding dispatch_op_use
    use-Within = with_valid_name-Within 3 _ λ name. record {
      at = λ w.
          around_tube name (use_tube c) _ w (counted op_use w) used (Quiet-same refl refl refl)
            (say_using c);
    }

    watch-Within : Within R (dispatch_op_watch c)
    unfolding dispatch_op_watch
    watch-Within = with_valid_name-Within 5 _ λ name. record {
      at = λ w.
          around_tube name (watch_tube c) _ w (counted op_watch w) watched
            (Quiet-same refl refl refl) (λ t. reply_watching-quiet c);
    }

    ignore-Within : Within R (dispatch_op_ignore c)
    unfolding dispatch_op_ignore
    ignore-Within = with_valid_name-Within 6 _ λ name. record {
      at = λ w.
          let w' = counted op_ignore w in
          Ends-bind _ (ignore_tube c name) w' ((ignored name).at w') λ b v r.
            Ends-mono ((say_ignored c b).at v) λ a u q.
              trans w w' u (sub w w' (Quiet-same refl refl refl)) (trans w' v u r (sub v u q));
    }

    dispatch_op-Within : (op : Op) → Within R (dispatch_op c op)
    unfolding dispatch_op
    dispatch_op-Within op_put = put-Within
    dispatch_op-Within op_use = use-Within
    dispatch_op-Within op_watch = watch-Within
    dispatch_op-Within op_ignore = ignore-Within
    dispatch_op-Within op_peek_ready = still (dispatch_op-quiet c op_peek_ready tt)
    dispatch_op-Within op_peek_delayed = still (dispatch_op-quiet c op_peek_delayed tt)
    dispatch_op-Within op_peek_buried = still (dispatch_op-quiet c op_peek_buried tt)
    dispatch_op-Within op_peek_job = still (dispatch_op-quiet c op_peek_job tt)
    dispatch_op-Within op_reserve_timeout = still (dispatch_op-quiet c op_reserve_timeout tt)
    dispatch_op-Within op_reserve = still (dispatch_op-quiet c op_reserve tt)
    dispatch_op-Within op_reserve_job = still (dispatch_op-quiet c op_reserve_job tt)
    dispatch_op-Within op_delete = still (dispatch_op-quiet c op_delete tt)
    dispatch_op-Within op_release = still (dispatch_op-quiet c op_release tt)
    dispatch_op-Within op_bury = still (dispatch_op-quiet c op_bury tt)
    dispatch_op-Within op_kick = still (dispatch_op-quiet c op_kick tt)
    dispatch_op-Within op_kick_job = still (dispatch_op-quiet c op_kick_job tt)
    dispatch_op-Within op_touch = still (dispatch_op-quiet c op_touch tt)
    dispatch_op-Within op_stats = still (dispatch_op-quiet c op_stats tt)
    dispatch_op-Within op_stats_job = still (dispatch_op-quiet c op_stats_job tt)
    dispatch_op-Within op_stats_tube = still (dispatch_op-quiet c op_stats_tube tt)
    dispatch_op-Within op_list_tubes = still (dispatch_op-quiet c op_list_tubes tt)
    dispatch_op-Within op_list_tube_used = still (dispatch_op-quiet c op_list_tube_used tt)
    dispatch_op-Within op_list_tubes_watched = still (dispatch_op-quiet c op_list_tubes_watched tt)
    dispatch_op-Within op_quit = still (dispatch_op-quiet c op_quit tt)
    dispatch_op-Within op_pause_tube = still (dispatch_op-quiet c op_pause_tube tt)
    dispatch_op-Within op_unknown = still (dispatch_op-quiet c op_unknown tt)

    pub dispatch_cmd-Within : Within R (dispatch_cmd c)
    unfolding dispatch_cmd
    dispatch_cmd-Within =
        search (seq, Within-test, dispatch_op-Within, still, reply_msg-quiet, Quiets-get_conn)
