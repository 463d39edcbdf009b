-- ===== src/Jobs/Dispatch.antt =====
-- src/jobs/job-dispatch.service.ts, `runNamed` and `run`, and `tick` and `runAndMark` of
-- src/jobs/jobs.controller.ts. The services that the jobs call are a parameter.
pub mod Outcome
pub mod Tick
use meru_core.Base.{
  ℕ, zero, suc, ◌+◌, ◌-◌, ◌*◌, String, Option, none, some, List, [], ◌∷◌, ◌++◌, Bool, true, false,
  not, ◌==◌, ◌&&◌, ◌||◌, if◌then◌else◌, ltb, nat_eq, find?, filter, map, Result, ok, err, ◌+++◌, ℤ,
  pos, sub_ℕ, lt_ℤ,
}
use meru_core.Jobs.Catalogue.{
  JobName, name_of, cadence_minutes, job_of, Evidence, TickScope, tick_scope, tick_budget_ms,
}
use meru_core.Jobs.Runs.{
  RunStatus, ok_, failed, suspect, JobRun, RunOutcome, record_run, find_run, run_at,
}

-- What the handlers share: what each does to the world, and with it the evidence that it reports or
-- the message of what it throws; the clock; and whether `job_runs` can be read and written.
pub record Services (W : Type 0) : Type 0 where
  pub handle : JobName → W → W × Result String (Option Evidence)
  pub clock : W → ℕ
  pub can_read : W → Bool
  pub can_write : W → Bool

-- The world, the table of the runs, and the controller's map `lastRun`, its newest entry first.
pub record State (W : Type 0) : Type 0 where
  pub world : W
  pub runs : List JobRun
  pub marks : List (String × ℕ)

pub record Ran : Type 0 where
  pub job : JobName
  pub duration_ms : ℤ
  pub scope : Option Evidence

pub data DispatchError : Type 0 where
  unknown_job : String → DispatchError
  job_failed : String → DispatchError
  unreadable_runs : DispatchError

abbrev has_eligible : Option ℕ → Bool
has_eligible none = false
has_eligible (some n) = ltb 0 n

-- `scope && scope.eligible !== null && scope.eligible > 0 && scope.scanned === 0`
abbrev pub is_suspect : Option Evidence → Bool
is_suspect none = false
is_suspect (some e) = has_eligible e.eligible && nat_eq e.scanned 0

abbrev pub job_failure : JobName → String → String
job_failure job message = "Cron job \"" +++ name_of job +++ "\" failed: " +++ message

-- The four lists of a tick.
pub record TickResult : Type 0 where
  pub ran : List Ran
  pub skipped : List JobName
  pub deferred : List JobName
  pub failed : List (JobName × DispatchError)

abbrev pub no_result : TickResult
no_result = record { ran = []; skipped = []; deferred = []; failed = [] }

abbrev pub or_else : {A : Type 0} → Option A → Option A → Option A
or_else none o = o
or_else (some a) o = some a

abbrev pub mark_of : String → List (String × ℕ) → Option ℕ
mark_of job [] = none
mark_of job ((k, t) ∷ ms) = let rest = mark_of job ms in if k == job then some t else rest

-- `persisted.get(job) ?? this.lastRun.get(job)`, the table as it stood when the tick began
abbrev pub last_of : JobName → List JobRun → List (String × ℕ) → Option ℕ
last_of job persisted marks =
    or_else (run_at (find_run (name_of job) persisted)) (mark_of (name_of job) marks)

-- `last !== undefined && Date.now() - last < cadenceMs`
abbrev pub is_recent : ℕ → JobName → Option ℕ → Bool
is_recent now job none = false
is_recent now job (some t) = lt_ℤ (sub_ℕ now t) (pos (cadence_minutes job * 60000))

module _ {W : Type 0} (services : Services W) where
  abbrev pub store : JobName → RunOutcome → W → State W → State W
  store job o after s = record s {
    world = after;
    runs = record_run (services.can_write after) (name_of job) o (services.clock after) s.runs;
  }

  abbrev pub ran_ok :
      JobName → Option Evidence → ℕ → W → State W → State W × Result DispatchError Ran
  ran_ok job scope start after s =
      let duration = sub_ℕ (services.clock after) start in
      let status = if is_suspect scope then suspect else ok_ in
      (
        store job (record { status = status; duration_ms = duration; error = none; scope = scope })
            after s,
        ok (record { job = job; duration_ms = duration; scope = scope }),
      )

  abbrev pub ran_failed : JobName → String → W → State W → State W × Result DispatchError Ran
  ran_failed job message after s =
      let told = job_failure job message in
      (
        store job (record { status = failed; duration_ms = pos 0; error = some told; scope = none })
            after s,
        err (job_failed told),
      )

  abbrev pub ran :
      JobName
      → W × Result String (Option Evidence)
      → ℕ
      → State W
      → State W × Result DispatchError Ran
  ran job (after, ok scope) start s = ran_ok job scope start after s
  ran job (after, err message) start s = ran_failed job message after s

  unfoldable pub run_job : JobName → State W → State W × Result DispatchError Ran
  run_job job s = ran job (services.handle job s.world) (services.clock s.world) s

  abbrev pub run_known : String → Option JobName → State W → State W × Result DispatchError Ran
  run_known job none s = (s, err (unknown_job job))
  run_known job (some j) s = run_job j s

  unfoldable pub run_named : String → State W → State W × Result DispatchError Ran
  run_named job s = run_known job (job_of job) s

  -- `lastRun.set(job, Date.now())`
  abbrev pub mark : String → State W → State W
  mark job s = record s { marks = (job, services.clock s.world) ∷ s.marks }

  abbrev pub marked :
      String → State W × Result DispatchError Ran → State W × Result DispatchError Ran
  marked job (s, err e) = (s, err e)
  marked job (s, ok r) = (mark job s, ok r)

  unfoldable pub run_and_mark : String → State W → State W × Result DispatchError Ran
  run_and_mark job s = marked job (run_named job s)

  abbrev pub dispatched :
      JobName → State W × Result DispatchError Ran → TickResult → State W × TickResult
  dispatched job (s, ok r) t = (mark (name_of job) s, record t { ran = t.ran ++ r ∷ [] })
  dispatched job (s, err e) t = (s, record t { failed = t.failed ++ (job, e) ∷ [] })

  -- One turn of the loop, of a tick that began at `start` with the rows `persisted`.
  abbrev pub tick_turn : ℕ → List JobRun → JobName → State W → TickResult → State W × TickResult
  tick_turn start persisted job s t =
      let now = services.clock s.world in
      elim (is_recent now job (last_of job persisted s.marks)) [
        | true ↦ (s, record t { skipped = t.skipped ++ job ∷ [] })
        | false ↦ elim (lt_ℤ (pos tick_budget_ms) (sub_ℕ now start)) [
          | true ↦ (s, record t { deferred = t.deferred ++ job ∷ [] })
          | false ↦ dispatched job (run_named (name_of job) s) t
        ]
      ]

  abbrev pub tick_loop :
      ℕ → List JobRun → List JobName → State W → TickResult → State W × TickResult
  tick_loop start persisted [] s t = (s, t)
  tick_loop start persisted (job ∷ jobs) s t =
      let (s', t') = tick_turn start persisted job s t in tick_loop start persisted jobs s' t'

  abbrev ticked : State W × TickResult → State W × Result DispatchError TickResult
  ticked (s, t) = (s, ok t)

  -- What `lastRunMap` throws, `tick` does not catch.
  unfoldable pub tick : TickScope → State W → State W × Result DispatchError TickResult
  tick scope s =
      if services.can_read s.world
      then ticked (tick_loop (services.clock s.world) s.runs (tick_scope scope) s no_result)
      else (s, err unreadable_runs)
