-- ===== src/Tournament/Scheduler.antt =====
-- packages/tournament/src/scheduler.ts: `TournamentScheduler`.
-- The timer that polls calls `tick`, and is not kept. A start works on the state `W` of what is
-- started, and says whether it returned.
use vr_poker.Prelude.{
  ℕ, ◌≡◌, refl, Bool, true, false, not, Option, none, some, List, [], ◌∷◌, map, keep, leb,
  if◌then◌else◌, Bool-cases, inl, inr, All,
}
use vr_poker.Prelude.Maps.{write_in, erase_in}

-- `starts_at` is in milliseconds, and `none` where the text is no date.
pub record ScheduledTournament (W : Type 0) : Type 0 where
  pub id : ℕ
  pub starts_at : Option ℕ
  pub start : W → Bool × W

-- The map of the jobs holds each under its own id.
abbrev pub Jobs : Type 0 → Type 0
Jobs W = List (ℕ × ScheduledTournament W)

-- The jobs that are kept, what was started, and `none` where a start threw.
pub record Ticked (W : Type 0) : Type 0 where
  pub fired : Option (List ℕ)
  pub left : Jobs W
  pub world : W

module _ {W : Type 0} where
  unfoldable pub schedule : ScheduledTournament W → Jobs W → Jobs W
  schedule job jobs = write_in job.id job jobs

  unfoldable pub unschedule : ℕ → Jobs W → Jobs W
  unschedule id jobs = erase_in id jobs

  abbrev pub is_due : ℕ → ℕ × ScheduledTournament W → Bool
  is_due now e = elim e.1.starts_at [ none ↦ false | some at ↦ leb at now ]

  abbrev pub also_fired : ℕ → Ticked W → Ticked W
  also_fired id r = record r { fired = elim r.fired [ none ↦ none | some ids ↦ some (id ∷ ids) ] }

  abbrev pub also_left : ℕ × ScheduledTournament W → Ticked W → Ticked W
  also_left e r = record r { left = e ∷ r.left }

  -- A job that is due is started and then deleted; a start that throws ends the loop.
  unfoldable pub tick : ℕ → Jobs W → W → Ticked W
  tick now [] w = record { fired = some []; left = []; world = w }
  tick now (e ∷ jobs) w =
      let (returned, w') = e.1.start w in
      let started = tick now jobs w' in
      let skipped = tick now jobs w in
      if is_due now e
      then if returned
        then also_fired e.1.id started
        else record { fired = none; left = e ∷ jobs; world = w' }
      else also_left e skipped

  -- The starts of a list of jobs, one after another.
  abbrev pub start_all : Jobs W → W → W
  start_all [] w = w
  start_all (e ∷ jobs) w = start_all jobs (e.1.start w).1

  -- The start of no job throws.
  abbrev pub Returns : Jobs W → Type 0
  Returns jobs = All (λ e. (w : W) → (e.1.start w).0 ≡ true) jobs

  -- Where no start throws, a tick starts all that is due and nothing else, each once and in the order
  -- of the map, tells their ids, and keeps the others.
  pub tick_starts_due :
      (now : ℕ) (jobs : Jobs W) (w : W)
      → Returns jobs
      → tick now jobs w ≡ record {
        fired = some (map (λ e. e.1.id) (keep (is_due now) jobs));
        left = keep (λ e. not (is_due now e)) jobs;
        world = start_all (keep (is_due now) jobs) w;
      }
  unfolding tick
  tick_starts_due now [] w r = refl
  tick_starts_due now (e ∷ jobs) w r = elim (Bool-cases (is_due now e)) [
    | inl y ↦ rw (y, r.0 w, tick_starts_due now jobs (e.1.start w).1 r.1) refl
    | inr n ↦ rw (n, tick_starts_due now jobs w r.1) refl
  ]

  -- what a tick kept is not due at its time
  none_due :
      (now : ℕ) (jobs : Jobs W) → keep (is_due now) (keep (λ e. not (is_due now e)) jobs) ≡ []
  none_due now [] = refl
  none_due now (e ∷ jobs) = elim (Bool-cases (is_due now e)) [
    | inl y ↦ rw y (none_due now jobs)
    | inr n ↦ rw n (rw n (none_due now jobs))
  ]

  left-Returns :
      (p : ℕ × ScheduledTournament W → Bool) (jobs : Jobs W) → Returns jobs → Returns (keep p jobs)
  left-Returns p [] r = tt
  left-Returns p (e ∷ jobs) r = elim (Bool-cases (p e)) [
    | inl y ↦ rw y (r.0, left-Returns p jobs r.1)
    | inr n ↦ rw n (left-Returns p jobs r.1)
  ]

  -- Where no start throws, what is due has been started after one tick: a second tick at the same time
  -- starts nothing.
  pub started_once :
      (now : ℕ) (jobs : Jobs W) (w : W)
      → Returns jobs
      → ((tick now (tick now jobs w).left w).fired ≡ some [])
        × ((tick now (tick now jobs w).left w).world ≡ w)
  started_once now jobs w r =
      let kept = keep (λ e. not (is_due now e)) jobs in
      let second = tick_starts_due now kept w (left-Returns _ jobs r) in
      rw (tick_starts_due now jobs w r, second, none_due now jobs) (refl, refl)
