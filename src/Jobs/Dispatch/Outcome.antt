-- ===== src/Jobs/Dispatch/Outcome.antt =====
-- What `runNamed` of src/jobs/job-dispatch.service.ts records of a run.
use meru_core.Base.{
  ℕ, ◌+◌, ◌*◌, ◌<◌, String, Option, none, some, List, [], ◌∷◌, ◌++◌, ◌≡◌, ◌↔◌, refl, true, arith,
  length, Result, ok, err,
}
use meru_core.Jobs.Sweep.{SweepScope, run_tenant_bound_sweep}
use meru_core.Jobs.Sweep.Counts.{run_tenant_bound_sweep_counts}
use meru_core.Jobs.Catalogue.{Evidence, JobName, name_of, cadence_minutes}
use meru_core.Jobs.Runs.{JobRun, RunOutcome, find_run, run_at, record_run}
use meru_core.Jobs.Runs.History.{bumped, find_run-upsert_same}
use meru_core.Jobs.Dispatch.{
  Services, State, TickResult, tick_turn, is_suspect, run_job, ran, last_of, is_recent,
}

-- The evidence that a swept job reports at `scope`.
abbrev pub evidence_of : {E : Type 0} → SweepScope E → Evidence
evidence_of r = record { eligible = some r.eligible; scanned = r.scanned }

-- A swept job is suspect exactly when it found an item and failed on every one: a sweep that found
-- nothing is not, nor is one of which a single item went through.
pub is_suspect-sweep :
    {S A E : Type 0} (tenant_of id_of : A → String) (fn : A → S → S × Option E) (items : List A)
    (s : S)
    → (is_suspect (some (evidence_of (run_tenant_bound_sweep tenant_of id_of fn items s).0)) ≡ true)
      ↔ ((0 < length items)
          × (length (run_tenant_bound_sweep tenant_of id_of fn items s).0.failures ≡ length items))
is_suspect-sweep tenant_of id_of fn items s =
    let h = run_tenant_bound_sweep_counts tenant_of id_of fn items s in
    (
      λ e. ground (arith, e, h.none_scanned, h.any_eligible),
      λ w. ground (arith, w, h.none_scanned, h.any_eligible),
    )

bumped_at :
    (job : String) (o : RunOutcome) (now : ℕ) (r : Option JobRun)
    → (bumped job o now r).last_run_at ≡ now
bumped_at job o now none = refl
bumped_at job o now (some r) = refl

recent_lem :
    (now : ℕ) (job : JobName) (at : ℕ)
    → now < at + cadence_minutes job * 60000
    → is_recent now job (some at) ≡ true
recent_lem now job at l = ground (arith, l)

module _ {W : Type 0} (services : Services W) where
  abbrev pub after_job : JobName → State W → W
  after_job job s = (services.handle job s.world).0

  ran_at :
      (job : JobName) (r : W × Result String (Option Evidence)) (start : ℕ) (s : State W)
      → services.can_write r.0 ≡ true
      → run_at (find_run (name_of job) (ran services job r start s).0.runs)
        ≡ some (services.clock r.0)
  unfolding record_run
  ran_at job (after, ok scope) start s h = simp (
    h,
    find_run-upsert_same (name_of job) _ (services.clock after) s.runs,
    bumped_at (name_of job) _ (services.clock after) (find_run (name_of job) s.runs),
  )
  ran_at job (after, err message) start s h = simp (
    h,
    find_run-upsert_same (name_of job) _ (services.clock after) s.runs,
    bumped_at (name_of job) _ (services.clock after) (find_run (name_of job) s.runs),
  )

  -- Once a run of a job is recorded, whether it succeeded or failed, a tick that reads the table skips
  -- the job until the job's cadence has passed since the end of the run.
  pub run_job_skipped :
      (job : JobName) (s later : State W) (start : ℕ) (t : TickResult)
      → services.can_write (after_job job s) ≡ true
      → services.clock later.world < services.clock (after_job job s) + cadence_minutes job * 60000
      → tick_turn services start (run_job services job s).0.runs job later t
        ≡ (later, record t { skipped = t.skipped ++ job ∷ [] })
  unfolding run_job
  run_job_skipped job s later start t h l =
      let at = ran_at job (services.handle job s.world) (services.clock s.world) s h in
      let recent : is_recent (services.clock later.world) job
            (last_of job (run_job services job s).0.runs later.marks)
          ≡ true =
        simp (at, recent_lem (services.clock later.world) job _ l) in
      rw (tick_turn, recent) refl
