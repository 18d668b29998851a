-- ===== src/IdleTimer.antt =====
-- The idle timer: src/idle_timer.h. The readings of the steady clock are arguments, in the order in
-- which the code takes them; `none` is the exception of a timer that is started or stopped twice.
pub mod Accounting
use perf_analyzer.Prelude.{
  ℕ, ◌+◌, ◌-◌, Bool, true, false, Option, none, some, if◌then◌else◌, ◌>>=◌, add_u64,
}

pub record IdleTimer : Type 0 where
  pub idle_ns : ℕ
  pub is_idle : Bool
  pub start_time : ℕ

unfoldable pub start : IdleTimer → ℕ → Option IdleTimer
start t now = if t.is_idle then none else some (record t { is_idle = true; start_time = now })

unfoldable pub stop : IdleTimer → ℕ → Option IdleTimer
stop t now =
    if t.is_idle
    then some (record t { is_idle = false; idle_ns = add_u64 t.idle_ns (now - t.start_time) })
    else none

unfoldable pub restart : IdleTimer → ℕ → ℕ → Option IdleTimer
unfolding start stop
restart t stopped started =
    if t.is_idle then (stop t stopped >>= λ t'. start t' started) else some t

unfoldable pub reset : IdleTimer → ℕ → ℕ → Option IdleTimer
unfolding restart
reset t stopped started = do t' ← restart t stopped started; some (record t' { idle_ns = 0 })

unfoldable pub get_idle_time : IdleTimer → ℕ → ℕ → Option (ℕ × IdleTimer)
unfolding restart
get_idle_time t stopped started = do t' ← restart t stopped started; some (t'.idle_ns, t')
