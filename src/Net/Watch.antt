-- ===== src/Net/Watch.antt =====
-- net/conn.go: NewConn, and the callbacks of a connection's list of watched tubes; the numbers that
-- the callbacks keep stand in the tubes.
pub mod Counts
use gostalkd.Prelude.{
  ℕ, ◌+◌, Bool, true, false, not, List, [], ◌∷◌, Option, none, some, ◌==◌, if◌then◌else◌, add64,
  sub64, length, update,
}
use gostalkd.Structure.Ms
use gostalkd.Structure.Ms.{Ms, Eq, Events, EventFn, new_ms}
use gostalkd.Core.Job.{new_job}
use gostalkd.Core.Tube.{Tube, Tubes}
use gostalkd.Machine.{World, Conn, ConnState}
use gostalkd.Machine.Actions.{
  M, ◌>>=◌, ◌>>◌, return, done, read, modify, now, change_tube, get_conn, change_conn,
}
use gostalkd.Net.Conn.{address_eq, minus_one}

-- onWatch
unfoldable pub on_watch : EventFn ℕ (ℕ → Tube)
on_watch m t i at = update at t (record (at t) { watching_ct = add64 (at t).watching_ct 1 })

-- onIgnore
unfoldable pub on_ignore : EventFn ℕ (ℕ → Tube)
on_ignore m t i at = update at t (record (at t) { watching_ct = sub64 (at t).watching_ct 1 })

-- the callbacks that NewConn sets
unfoldable pub watching : Events ℕ (ℕ → Tube)
unfolding on_watch on_ignore
watching = record { on_insert = some on_watch; on_remove = some on_ignore }

-- c.Watch.Append(t), with the callback's work on the tubes
unfoldable pub watch_append : ℕ → ℕ → M (Unit {0})
unfolding watching
watch_append c t w =
    let (l, m, at) = Ms.append watching (w.conn c).watch (t ∷ []) w.tubes.at in
    some (
      tt,
      record w {
        conn = update w.conn c (record (w.conn c) { watch = m });
        tubes = record (w.tubes) { at = at };
      },
    )

-- c.Watch.Remove(t)
unfoldable pub watch_remove : ℕ → ℕ → M (Unit {0})
unfolding watching
watch_remove c t w =
    let (found, m, at) = Ms.remove watching (w.conn c).watch t w.tubes.at in
    some (
      tt,
      record w {
        conn = update w.conn c (record (w.conn c) { watch = m });
        tubes = record (w.tubes) { at = at };
      },
    )

-- c.Watch.Clear()
unfoldable pub watch_clear : ℕ → M (Unit {0})
unfolding watching
watch_clear c w = elim (Ms.clear watching (w.conn c).watch w.tubes.at) [
  | none ↦ none
  | some (m, at) ↦ some (
    tt,
    record w {
      conn = update w.conn c (record (w.conn c) { watch = m });
      tubes = record (w.tubes) { at = at };
    },
  )
]

-- NewConn: nil if the file cannot be listened on, which leaves the counters of the tubes as they
-- are then
unfoldable pub new_conn : ConnState → ℕ → ℕ → M (Option ℕ)
unfolding new_job watch_append
new_conn start used watch = do
  u ← now
  w ← read
  let c = w.fresh_conn
  let (head, js) = new_job w.jobs u 0
  modify (λ v. record v { jobs = js; fresh_conn = c + 1; requests = v.requests + 1 })
  let fresh : Conn = record {
    state = start;
    is_producer = false;
    is_worker = false;
    is_waiting = false;
    next = none;
    use_tube = some used;
    tick_at = 0;
    tick_pos = 0;
    in_coons = false;
    soonest_job = none;
    rw = 0;
    pending_timeout = minus_one;
    half_closed = false;
    cmd = [];
    cmd_len = 0;
    cmd_read = 0;
    reply = [];
    reply_len = 0;
    reply_sent = 0;
    reply_buf = [];
    in_job_read = 0;
    in_job = none;
    out_job = none;
    out_job_sent = 0;
    watch = new_ms;
    reserved_jobs = head;
  }
  change_conn c (λ _. fresh)
  watch_append c watch
  change_tube used (λ t. record t { using_ct = add64 t.using_ct 1 })
  if not (w.outside.listening w.requests) then return none else (do
    modify (λ v. record v {
      cur_conn_ct = add64 v.cur_conn_ct 1;
      total_conn_ct = add64 v.total_conn_ct 1;
    })
    return (some c))
