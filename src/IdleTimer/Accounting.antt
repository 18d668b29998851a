-- ===== src/IdleTimer/Accounting.antt =====
-- What the timer has counted, whoever reads it in between.
use perf_analyzer.Prelude.{
  ℕ, ◌+◌, ◌-◌, ◌≤◌, ◌<◌, ◌≡◌, refl, ◌⊎◌, inl, inr, true, false, List, [], ◌∷◌, Option, some,
  if◌then◌else◌, ◌>>=◌, add_u64, u64_mod, arith, Bool-cases,
}
use perf_analyzer.IdleTimer.{IdleTimer, stop, reset, get_idle_time}

-- The time that the timer would have counted at `now`.
abbrev pub observed : IdleTimer → ℕ → ℕ
observed t now = if t.is_idle then t.idle_ns + (now - t.start_time) else t.idle_ns

-- Reading the timer never throws. It reports what was counted up to its first look at the clock,
-- and of what is observed later only the time between its two looks is lost; a timer that is not
-- running loses nothing. The counter is taken not to wrap.
pub get_idle_time_lem :
    (t : IdleTimer) (stopped started now : ℕ)
    → t.start_time ≤ stopped
    → stopped ≤ started
    → started ≤ now
    → observed t now < u64_mod
    → (t' : IdleTimer) × (get_idle_time t stopped started ≡ some (observed t stopped, t'))
      × (t'.is_idle ≡ t.is_idle)
      × ((t.is_idle ≡ true) × (observed t' now + (started - stopped) ≡ observed t now)
          ⊎ (t.is_idle ≡ false) × (t' ≡ t))
unfolding get_idle_time
get_idle_time_lem t stopped started now h₁ h₂ h₃ fits = elim (Bool-cases t.is_idle) [
  | inl r ↦ (
    record t {
      idle_ns = add_u64 t.idle_ns (stopped - t.start_time);
      is_idle = true;
      start_time = started;
    },
    ground arith,
    ground arith,
    inl (r, ground arith),
  )
  | inr r ↦ (t, ground arith, refl, inr (r, refl))
]

-- After a reset the timer observes the time since the reset if it is running, and nothing if not.
pub observed-reset :
    (t : IdleTimer) (stopped started now : ℕ)
    → (t' : IdleTimer) × (reset t stopped started ≡ some t')
      × (t'.is_idle ≡ t.is_idle)
      × (observed t' now ≡ (if t.is_idle then now - started else 0))
unfolding reset
observed-reset t stopped started now = elim (Bool-cases t.is_idle) [
  | inl r ↦ (
    record t { idle_ns = 0; is_idle = true; start_time = started },
    ground arith,
    ground arith,
    ground arith,
  )
  | inr r ↦ (record t { idle_ns = 0 }, ground arith, refl, ground arith)
]

-- An idle period: the timer is started, read any number of times, and stopped. A reading looks at
-- the clock twice: it stops the timer at the first time and starts it again at the second.
abbrev pub reads : List (ℕ × ℕ) → IdleTimer → Option IdleTimer
reads [] t = some t
reads ((stopped, started) ∷ rest) t = do (_, t') ← get_idle_time t stopped started; reads rest t'

abbrev pub Ordered : ℕ → List (ℕ × ℕ) → ℕ → Type 0
Ordered from [] to = from ≤ to
Ordered from ((stopped, started) ∷ rest) to =
    (from ≤ stopped) × (stopped ≤ started) × Ordered started rest to

-- The time between the two looks of the readings.
abbrev pub lost : List (ℕ × ℕ) → ℕ
lost [] = 0
lost ((stopped, started) ∷ rest) = (started - stopped) + lost rest

read_running :
    (t : IdleTimer) (stopped started : ℕ)
    → t.is_idle ≡ true
    → get_idle_time t stopped started
      ≡ some (
        add_u64 t.idle_ns (stopped - t.start_time),
        record t {
          idle_ns = add_u64 t.idle_ns (stopped - t.start_time);
          is_idle = true;
          start_time = started;
        },
      )
unfolding get_idle_time
read_running t stopped started r = ground arith

Ordered-le : (times : List (ℕ × ℕ)) (from to : ℕ) → Ordered from times to → from ≤ to
Ordered-le [] from to h = h
Ordered-le ((stopped, started) ∷ rest) from to (h, l, o) =
    omega (arith, Ordered-le rest started to o)

-- If a running timer is read any number of times, the looks at the clock in order, and the counter
-- does not wrap, then stopping it succeeds, and it has counted the whole period since its start but
-- for the time between the two looks of each reading.
pub reads-stop :
    (times : List (ℕ × ℕ)) (t : IdleTimer) (to : ℕ)
    → t.is_idle ≡ true
    → Ordered t.start_time times to
    → t.idle_ns + (to - t.start_time) < u64_mod
    → (t' : IdleTimer) × ((reads times t >>= λ u. stop u to) ≡ some t')
      × (t'.idle_ns + lost times ≡ t.idle_ns + (to - t.start_time))
      × (t'.is_idle ≡ false)
unfolding stop
reads-stop [] t to r o fits = (
  record t { is_idle = false; idle_ns = add_u64 t.idle_ns (to - t.start_time) },
  ground arith,
  omega arith,
  refl,
)
reads-stop ((stopped, started) ∷ rest) t to r (h, l, o) fits =
    let ordered = Ordered-le rest started to o in
    let counted = add_u64 t.idle_ns (stopped - t.start_time) in
    let u : IdleTimer = record t { idle_ns = counted; is_idle = true; start_time = started } in
    let plain : counted ≡ t.idle_ns + (stopped - t.start_time) = omega arith in
    let (t', run, counts, off) = reads-stop rest u to refl o (omega arith) in
    (t', rw (read_running t stopped started r) run, omega arith, off)
