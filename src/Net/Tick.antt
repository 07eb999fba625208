-- ===== src/Net/Tick.antt =====
-- net/prot.go: protTick and protReplay. A panic in protTick is caught there, and ends it with 0 in
-- the memory as it is then; `none` stands for that too.
pub mod Timeouts
mod Tests
use gostalkd.Prelude.{
  ℕ, zero, suc, ◌+◌, Bool, true, false, not, ◌&&◌, List, [], ◌∷◌, none, some, ltb, ◌==◌,
  if◌then◌else◌, sub64, slt, positive, length,
}
use gostalkd.Structure.Heap.{take_at, remove}
use gostalkd.Core.Job.{JobState, buried, delayed}
use gostalkd.Core.Bury.{bury_job}
use gostalkd.Core.Tube.{Tube, soonest_delayed_job}
use gostalkd.Core.Links.{list_remove}
use gostalkd.Core.Wal.Space.{wal_resv_update}
use gostalkd.Machine.Actions.{
  on_option, M, ◌>>=◌, ◌>>◌, return, done, panic, read, modify, lift, now, get_job, change_links,
  get_tube, change_tube, get_conn, change_conn,
}
use gostalkd.Net.Conn.{conn_less}
use gostalkd.Net.Queue.{delay_remove, enqueue_job, process_queue}
use gostalkd.Net.Close.{conn_timeout, epoll_q_apply}

-- the smaller of a period and a delay, as math.Min gives it
unfoldable pub shorter : ℕ → ℕ → M ℕ
shorter period d = do w ← read; return (w.outside.min_ns period d)

-- how many jobs stand in the delay heaps of the tubes
abbrev pub delay_total : (ℕ → Tube) → List ℕ → ℕ
delay_total at [] = 0
delay_total at (t ∷ ts) = length (at t).delay + delay_total at ts

-- the first loop of protTick: jobs whose delay is over become ready
unfoldable pub tick_delayed : ℕ → ℕ → ℕ → M ℕ
unfolding soonest_delayed_job shorter delay_remove enqueue_job
tick_delayed zero t period = panic
tick_delayed (suc fuel) t period = do
  w ← read
  on_option (soonest_delayed_job w.jobs w.tubes) (return period) (λ j. (do
    x ← get_job j
    let d = sub64 x.r.deadline_at t
    if positive d
        then shorter period d
        else (do delay_remove j; r ← enqueue_job j 0 false; tick_delayed fuel t period)))

-- the second loop of protTick: tubes whose pause is over
unfoldable pub tick_paused : List ℕ → ℕ → ℕ → M ℕ
unfolding process_queue shorter
tick_paused [] t period = return period
tick_paused (a ∷ tubes) t period = do
  x ← get_tube a
  let d = sub64 x.unpause_at t
  period' ←
      if positive x.pause && not (positive d)
      then (do change_tube a (λ y. record y { pause = 0 }); process_queue; return period)
      else if positive d
      then shorter period d
      else return period
  tick_paused tubes t period'

-- the third loop of protTick: connections whose time is over; it starts with `i` the length of
-- the heap and runs while `i` is above it
unfoldable pub tick_conns : ℕ → ℕ → ℕ → ℕ → M ℕ
unfolding shorter take_at remove conn_less conn_timeout
tick_conns zero i t period = panic
tick_conns (suc fuel) i t period = do
  w ← read
  if not (ltb (length w.connes) i) then return period else (do
    item ← lift (take_at w.connes 0)
    x ← get_conn item.value
    let d = sub64 x.tick_at t
    if positive d then shorter period d else (do
      (gone, rest) ← lift (remove (conn_less w.conn) w.connes item.index)
      modify (λ v. record v { connes = rest })
      change_conn item.value (λ y. record y { in_coons = false })
      conn_timeout item.value
      v ← read
      tick_conns fuel (length v.connes) t period))

-- DefaultPeriod, one hour
abbrev pub default_period : ℕ
default_period = 3_600_000_000_000

-- protTick
unfoldable pub prot_tick : M ℕ
unfolding tick_delayed tick_paused tick_conns epoll_q_apply
prot_tick = do
  t ← now
  w ← read
  period₁ ← tick_delayed (delay_total w.tubes.at w.tubes.tubes.items + 1) t default_period
  v ← read
  period₂ ← tick_paused v.tubes.tubes.items t period₁
  u ← read
  period₃ ← tick_conns (length u.connes + 1) (length u.connes) t period₂
  epoll_q_apply
  return period₃

-- the switch of protReplay, with the delay that is left
unfoldable pub replay_job : ℕ → JobState → M (Unit {0})
unfolding bury_job enqueue_job
replay_job j buried = do b ← bury_job j false; done
replay_job j delayed = do
  t ← now
  x ← get_job j
  r ← enqueue_job j (if slt t x.r.deadline_at then sub64 x.r.deadline_at t else 0) false
  done
replay_job j _ = do r ← enqueue_job j 0 false; done

-- the loop of protReplay, from the job `j` to the head of the list
unfoldable pub replay_loop : ℕ → ℕ → ℕ → M Bool
unfolding list_remove wal_resv_update replay_job
replay_loop zero head j = panic
replay_loop (suc fuel) head j = if j == head then return true else (do
  w ← read
  let next = w.jobs.links.next j
  change_links (λ l. (list_remove l (some j)).1)
  z ← wal_resv_update
  if not (positive z)
      then return false
      else (do x ← get_job j; replay_job j x.r.state; replay_loop fuel head next))

-- protReplay; a list has no more jobs than there are addresses
unfoldable pub prot_replay : ℕ → M Bool
unfolding replay_loop
prot_replay head = do w ← read; replay_loop (w.jobs.fresh + 1) head (w.jobs.links.next head)
