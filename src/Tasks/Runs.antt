-- ===== src/Tasks/Runs.antt =====
-- How often a recurring job of src/tasks/task.service.ts runs, and what becomes of one that fails.
use meru_core.Base.{
  ℕ, suc, ◌≤◌, String, List, [], ◌∷◌, true, false, not, ◌≡◌, refl, ap, ◌==◌, ◌⊎◌, inl, inr, arith,
  eq_iff, Option, none, some, In, All, All-of_In, In_of_All, In-filter_iff, filter, Bool-cases,
  Result, ok, err, ◌&&◌, if_elim,
}
use meru_core.Jobs.Sweep.{Tally, sweep_from, no_tally, run_tenant_bound_sweep}
use meru_core.Tasks.Types.{RecurringJob, completed, NewTask, TaskDb, TaskError}
use meru_core.Tasks.Work.{TaskEnv, create_task, new_task}
use meru_core.Tasks.Recurring.{
  put_recurring, is_spent, executed_job, failed_job, create_from, execute_recurring_job,
  process_recurring_jobs, is_runnable, task_of, error_message,
}

-- A job has not run more often than its maximum, where that is set and not 0.
abbrev pub IsWithin : Option ℕ → ℕ → Type 0
IsWithin none runs = Unit
IsWithin (some n) runs = (n ≡ 0) ⊎ (runs ≤ n)

abbrev pub IsWithinRuns : RecurringJob → Type 0
IsWithinRuns j = IsWithin j.config.max_runs j.run_count

abbrev pub AllWithin : TaskDb → Type 0
AllWithin db = All IsWithinRuns db.jobs

next_run-IsWithin : (o : Option ℕ) (runs : ℕ) → is_spent o runs ≡ false → IsWithin o (suc runs)
next_run-IsWithin none runs h = tt
next_run-IsWithin (some n) runs h = ground arith

put_recurring-All :
    (P : RecurringJob → Type 0) (j : RecurringJob) (ks : List RecurringJob)
    → P j
    → All P ks
    → All P (put_recurring j ks)
put_recurring-All P j [] p a = tt
put_recurring-All P j (k ∷ ks) p a =
    if_elim (All P) (k.id == j.id) (j ∷ put_recurring j ks) (k ∷ put_recurring j ks)
      (p, put_recurring-All P j ks p a.1) (a.0, put_recurring-All P j ks p a.1)

In-put_recurring :
    (j k : RecurringJob) (ks : List RecurringJob)
    → k.id ≡ j.id
    → In k ks
    → In j (put_recurring j ks)
In-put_recurring j k [] e m = absurd m
In-put_recurring j k (x ∷ xs) e (inl f) =
    let same : x.id == j.id ≡ true =
      ground (arith, eq_iff x.id j.id, ap (λ (y : RecurringJob). y.id) f, e) in
    rw same (inl refl)
In-put_recurring j k (x ∷ xs) e (inr m) =
    if_elim (In j) (x.id == j.id) (j ∷ put_recurring j xs) (x ∷ put_recurring j xs)
      (inr (In-put_recurring j k xs e m)) (inr (In-put_recurring j k xs e m))

module _ (env : TaskEnv) (month_after : ℕ → ℕ) where
  create_from-AllWithin :
      (j : RecurringJob) (r : Result TaskError NewTask) (db : TaskDb)
      → IsWithinRuns j
      → IsWithin j.config.max_runs (suc j.run_count)
      → AllWithin db
      → AllWithin (create_from env month_after j r db).0
  unfolding create_task new_task
  create_from-AllWithin j (err e) db w n a =
      put_recurring-All IsWithinRuns (failed_job env (error_message e) j) db.jobs w a
  create_from-AllWithin j (ok dto) db w n a =
      put_recurring-All IsWithinRuns (executed_job env month_after (env.new_id db.given) j) db.jobs
        n a

  execute-AllWithin :
      (j : RecurringJob) (db : TaskDb)
      → IsWithinRuns j
      → AllWithin db
      → AllWithin (execute_recurring_job env month_after j db).0
  unfolding execute_recurring_job
  execute-AllWithin j db w a = elim (Bool-cases (is_spent j.config.max_runs j.run_count)) [
    | inl h ↦ rw h (put_recurring-All IsWithinRuns (record j { status = completed }) db.jobs w a)
    | inr h ↦ rw h (
        create_from-AllWithin j (task_of j.task_template) db w
          (next_run-IsWithin j.config.max_runs j.run_count h) a)
  ]

  sweep_from-AllWithin :
      (js : List RecurringJob) (t : Tally TaskError) (db : TaskDb)
      → All IsWithinRuns js
      → AllWithin db
      → AllWithin
          (sweep_from
            (λ (j : RecurringJob). j.tenant_id)
            (λ (j : RecurringJob). j.id)
            (execute_recurring_job env month_after)
            t
            js
            db).1
  sweep_from-AllWithin [] t db w a = a
  sweep_from-AllWithin (j ∷ js) t db w a =
      sweep_from-AllWithin js _ _ w.1 (execute-AllWithin j db w.0 a)

  -- A sweep keeps every recurring job of every tenant within the number of runs that its
  -- configuration allows, whichever jobs it runs, skips or fails at.
  pub process_recurring_jobs-AllWithin :
      (db : TaskDb) → AllWithin db → AllWithin (process_recurring_jobs env month_after db).1
  unfolding process_recurring_jobs run_tenant_bound_sweep
  process_recurring_jobs-AllWithin db a =
      sweep_from-AllWithin (filter (is_runnable env.now) db.jobs) no_tally db
        (All-of_In (filter (is_runnable env.now) db.jobs) (λ j m.
          In_of_All IsWithinRuns db.jobs a j
            ((In-filter_iff (is_runnable env.now) db.jobs j).0 m).0))
        a

  failed_job-is_runnable :
      (message : String) (j : RecurringJob) (later : ℕ)
      → is_runnable later (failed_job env message j)
        ≡ (is_runnable later j && not j.config.retry_on_error)
  failed_job-is_runnable message j later = elim (Bool-cases j.config.retry_on_error) [
    | inl h ↦ rw h (ground arith)
    | inr h ↦ rw h (ground arith)
  ]

  -- A run of a job whose template the database refuses creates no task, throws, counts as no run, and
  -- leaves the job to be picked up by a later sweep as before unless its configuration asks for a
  -- retry on an error, in which case no later sweep picks it up.
  pub execute_recurring_job_refused :
      (j : RecurringJob) (e : TaskError) (db : TaskDb)
      → In j db.jobs
      → is_spent j.config.max_runs j.run_count ≡ false
      → task_of j.task_template ≡ err e
      → ((execute_recurring_job env month_after j db).1 ≡ some e)
        × ((execute_recurring_job env month_after j db).0.tasks ≡ db.tasks)
        × ((k : RecurringJob) × In k (execute_recurring_job env month_after j db).0.jobs
            × (k.id ≡ j.id)
            × (k.run_count ≡ j.run_count)
            × ((later : ℕ)
                → is_runnable later k ≡ (is_runnable later j && not j.config.retry_on_error)))
  unfolding execute_recurring_job
  execute_recurring_job_refused j e db m fresh refused =
      rw (fresh, refused)
        (
          refl,
          refl,
          (
            failed_job env (error_message e) j,
            In-put_recurring (failed_job env (error_message e) j) j db.jobs refl m,
            refl,
            refl,
            failed_job-is_runnable (error_message e) j,
          ),
        )
