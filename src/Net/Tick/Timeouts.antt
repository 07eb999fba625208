-- ===== src/Net/Tick/Timeouts.antt =====
-- The third loop of net/prot.go's protTick.
use gostalkd.Prelude.{ℕ, suc, ◌+◌, ◌≡◌, false, some, ltb, length, arith}
use gostalkd.Machine.{World}
use gostalkd.Machine.Actions.{M, ◌>>=◌, ◌>>◌, return, read, now}
use gostalkd.Machine.Laws.{bind_ext}
use gostalkd.Net.Close.{epoll_q_apply}
use gostalkd.Net.Tick.{
  prot_tick, tick_delayed, tick_paused, tick_conns, delay_total, default_period,
}

abbrev last_step : ℕ → M ℕ
last_step period = do epoll_q_apply; return period

-- protTick from its second loop on, with what it does behind that loop.
abbrev second_step : (ℕ → M ℕ) → ℕ → ℕ → M ℕ
second_step behind t period = do
  w ← read
  period' ← tick_paused w.tubes.tubes.items t period
  behind period'

abbrev first_step : (ℕ → ℕ → M ℕ) → M ℕ
first_step behind = do
  t ← now
  w ← read
  period ← tick_delayed (delay_total w.tubes.at w.tubes.tubes.items + 1) t default_period
  behind t period

abbrev third_step : ℕ → ℕ → M ℕ
third_step t period = do
  w ← read
  period' ← tick_conns (length w.connes + 1) (length w.connes) t period
  last_step period'

-- protTick without its third loop.
unfoldable pub tick_without_conns : M ℕ
tick_without_conns = first_step (λ t. second_step last_step t)

not_above : (n : ℕ) → ltb n n ≡ false
not_above n = ground arith

tick_conns-stops :
    (fuel t period : ℕ) (w : World)
    → tick_conns (suc fuel) (length w.connes) t period w ≡ some (period, w)
unfolding tick_conns
tick_conns-stops fuel t period w = rw (not_above (length w.connes), tick_conns)

third_step-last_step : (t period : ℕ) (w : World) → third_step t period w ≡ last_step period w
third_step-last_step t period w =
    let more : length w.connes + 1 ≡ suc (length w.connes) = omega arith in
    rw (more, ◌>>=◌, tick_conns-stops (length w.connes) t period w)

-- protTick does what it does without its third loop, whatever connections wait in the heap: no
-- connection's time is ever found to be over there, and none shortens the period.
pub prot_tick-no_timeout : (w : World) → prot_tick w ≡ tick_without_conns w
unfolding prot_tick tick_without_conns
prot_tick-no_timeout w =
    let t = w.outside.clock w.readings in
    let w' : World = record w { readings = w.readings + 1 } in
    let total = delay_total w.tubes.at w.tubes.tubes.items in
    bind_ext (tick_delayed (total + 1) t default_period) (second_step (third_step t) t)
      (second_step last_step t) w'
      λ period₁ v.
        bind_ext (tick_paused v.tubes.tubes.items t period₁) (third_step t) last_step v
          (third_step-last_step t)
