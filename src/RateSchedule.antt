-- ===== src/RateSchedule.antt =====
-- The schedule of a request rate worker: src/rate_schedule.h. Times are nanoseconds, and are taken
-- not to overflow. `none` is an access to an empty list of intervals.
pub mod Timeline
use perf_analyzer.Prelude.{
  ℕ, ◌+◌, ◌*◌, List, Option, some, length, get_elem?, leb, if◌then◌else◌, ◌>>=◌,
}

pub record RateSchedule : Type 0 where
  pub intervals : List ℕ
  pub duration : ℕ
  pub rounds : ℕ
  pub index : ℕ

unfoldable pub next : RateSchedule → Option (ℕ × RateSchedule)
next s = do
  interval ← get_elem? s.intervals s.index
  let timestamp = interval + s.duration * s.rounds
  let index = s.index + 1
  let s' : RateSchedule =
      (if leb (length s.intervals) index
        then record s { rounds = s.rounds + 1; index = 0 }
        else record s { index = index })
  some (timestamp, s')
