-- ===== src/Queue/Reach.antt =====
-- The reachable tables of src/queue: every operation of the service and of the processor is a step.
use meru_core.Base.{
  ℕ, String, Option, none, List, [], ◌∷◌, ◌≡◌, subst, Bool, arith, Result, ok, >>=-eq-ok,
  from_option, All-imp, find?, filter, get_or, ◌==◌, ◌&&◌,
}
use meru_core.Jobs.Sweep.{no_tally, run_tenant_bound_sweep}
use meru_core.Queue.Types.{
  QueueJob, JobType, JobData, JobOptions, JobResult, JobProgress, Queue, QueueScheduledJob,
  QueueError, all_types, invalid_cron, scheduled_job_not_found,
}
use meru_core.Queue.Jobs.{
  Env, create_job, create_bulk_jobs, BulkEntry, caught, get_next_job, no_options,
}
use meru_core.Queue.Settle.{
  remove_job, update_progress, complete_job, fail_job, retry_job, cancel_job, resume_pending_jobs,
}
use meru_core.Queue.Schedule.{
  ScheduleOptions, schedule_job, cancel_scheduled_job, run_schedule, is_due_schedule,
  process_scheduled_jobs,
}
use meru_core.Queue.Drain.{DrainEnv, Answer, process_job_internal, settlement_of, drain_queue}
use meru_core.Queue.Invariant.{Injective, IsWellFormed, create_job-WellFormed, ok-inj}
use meru_core.Queue.Kept.{
  remove_job-WellFormed, get_next_job-WellFormed, update_progress-WellFormed,
  complete_job-WellFormed, fail_job-WellFormed, retry_job-WellFormed, cancel_job-WellFormed,
  resume_pending_jobs-WellFormed,
}
use meru_core.Queue.Steps.{
  sweep_from-keeps, run_created-keeps, settle_job-keeps, drain-keeps, caught-keeps,
}

-- One operation, as its caller sees it; one that throws leaves the tables as they were.
pub data Step (new_id : ℕ → String) (q : Queue) : Queue → Type 0 where
  created :
      (env : Env)
      → env.new_id ≡ new_id
      → (tenant_id : String) (type : JobType) (d : JobData) (options : JobOptions)
        (user_id : Option String) (after : Queue)
      → create_job env tenant_id type d options user_id q ≡ ok after
      → Step new_id q after
  created_bulk :
      (env : Env)
      → env.new_id ≡ new_id
      → (tenant_id : String) (entries : List BulkEntry) (user_id : Option String)
      → Step new_id q (create_bulk_jobs env tenant_id entries user_id q)
  claimed :
      (env : Env) (types : List JobType) (tenant : Option String)
      → Step new_id q (get_next_job env types tenant q).1
  progressed : (id : String) (p : JobProgress) → Step new_id q (update_progress id p q)
  completed :
      (env : Env) (id : String) (result : JobResult) (after : Queue)
      → complete_job env id result q ≡ ok after
      → Step new_id q after
  failed :
      (env : Env) (id error : String) (should_retry : Bool)
      → Step new_id q (fail_job env id error should_retry q)
  retried :
      (env : Env) (id : String) (tenant : Option String) (delay : Option ℕ) (after : Queue)
      → retry_job env id tenant delay q ≡ ok after
      → Step new_id q after
  cancelled :
      (id : String) (tenant : Option String) (after : Queue)
      → cancel_job id tenant q ≡ ok after
      → Step new_id q after
  removed : (id : String) → Step new_id q (remove_job id q)
  resumed : Step new_id q (resume_pending_jobs q)
  planned :
      (env : Env) (tenant_id name : String) (type : JobType) (d : JobData) (cron : String)
      (options : ScheduleOptions) (after : Queue)
      → schedule_job env tenant_id name type d cron options q ≡ ok after
      → Step new_id q after
  unplanned :
      (id tenant_id : String) (after : Queue)
      → cancel_scheduled_job id tenant_id q ≡ ok after
      → Step new_id q after
  swept : (env : Env) → env.new_id ≡ new_id → Step new_id q (process_scheduled_jobs env q).1
  drained :
      (env : DrainEnv) (start max_jobs budget_ms : ℕ)
      → Step new_id q (drain_queue env start max_jobs budget_ms q).1

pub data Reaches (new_id : ℕ → String) (q : Queue) : Queue → Type 0 where
  here : Reaches new_id q q
  next : (mid after : Queue) → Reaches new_id q mid → Step new_id mid after → Reaches new_id q after

module _ (new_id : ℕ → String) where
  carried :
      (before after : Queue)
      → before.jobs ≡ after.jobs
      → before.given ≡ after.given
      → IsWellFormed new_id before
      → IsWellFormed new_id after
  carried before after e g w = rw (← e, ← g) w

  pub process_job_internal-WellFormed :
      (env : Env) (job : QueueJob) (answer : Option Answer) (q : Queue)
      → IsWellFormed new_id q
      → IsWellFormed new_id (process_job_internal env job answer q)
  unfolding process_job_internal
  process_job_internal-WellFormed env job answer q w =
      settle_job-keeps (IsWellFormed new_id) env job (settlement_of job answer) q
        (λ result after e. complete_job-WellFormed new_id env job.id result q after w e)
        (λ error retry. fail_job-WellFormed new_id env job.id error retry q w)

  drain_queue-WellFormed :
      (env : DrainEnv) (start max_jobs budget_ms : ℕ) (q : Queue)
      → IsWellFormed new_id q
      → IsWellFormed new_id (drain_queue env start max_jobs budget_ms q).1
  unfolding drain_queue
  drain_queue-WellFormed env start max_jobs budget_ms q w =
      drain-keeps (IsWellFormed new_id) env
        (λ n q' w'. get_next_job-WellFormed new_id (env.claiming n) all_types none q' w')
        (λ n job before q' _ _ w'.
          process_job_internal-WellFormed (env.settling n) job (env.answers job) q' w')
        _ max_jobs 0 q w

  plan-WellFormed :
      (env : Env) (tenant_id name : String) (type : JobType) (d : JobData) (cron : String)
      (options : ScheduleOptions) (q after : Queue)
      → IsWellFormed new_id q
      → schedule_job env tenant_id name type d cron options q ≡ ok after
      → IsWellFormed new_id after
  unfolding schedule_job
  plan-WellFormed env tenant_id name type d cron options q after w e =
      let (_, _, k) = >>=-eq-ok (from_option (invalid_cron cron) (env.next_run cron)) _ e in
      subst (IsWellFormed new_id) (ok-inj k) (record {
        ids_distinct = w.ids_distinct;
        known = All-imp (λ y g. let (n, l, r) = g in (n, omega (arith, l), r)) _ w.known;
        sound = w.sound;
      })

  unplan-WellFormed :
      (id tenant_id : String) (q after : Queue)
      → IsWellFormed new_id q
      → cancel_scheduled_job id tenant_id q ≡ ok after
      → IsWellFormed new_id after
  unfolding cancel_scheduled_job
  unplan-WellFormed id tenant_id q after w e =
      let (_, _, k) =
        >>=-eq-ok
          (from_option scheduled_job_not_found
            (find? (λ s. s.id == id && s.tenant_id == tenant_id) q.schedules))
          _ e in
      subst (IsWellFormed new_id) (ok-inj k) w

  module _ (inj : Injective new_id) where
    run_schedule-WellFormed :
        (env : Env)
        → env.new_id ≡ new_id
        → (s : QueueScheduledJob) (q : Queue) → IsWellFormed new_id q
        → IsWellFormed new_id (run_schedule env s q).0
    unfolding run_schedule
    run_schedule-WellFormed env same s q w =
        run_created-keeps (IsWellFormed new_id) env s _ q
          (λ before after e g w'. carried before after e g w')
          (λ after e.
            create_job-WellFormed new_id env s.tenant_id s.type s.data_ no_options none q after inj
              same w e)
          w

    sweep-WellFormed :
        (env : Env)
        → env.new_id ≡ new_id
        → (q : Queue) → IsWellFormed new_id q
        → IsWellFormed new_id (process_scheduled_jobs env q).1
    unfolding process_scheduled_jobs run_tenant_bound_sweep
    sweep-WellFormed env same q w =
        sweep_from-keeps (IsWellFormed new_id) (λ s. s.tenant_id) (λ s. s.id) (run_schedule env)
          (λ s q' w'. run_schedule-WellFormed env same s q' w')
          (filter (is_due_schedule env.now) q.schedules) no_tally q w

    bulk-WellFormed :
        (env : Env)
        → env.new_id ≡ new_id
        → (tenant_id : String) (entries : List BulkEntry) (user_id : Option String) (q : Queue)
        → IsWellFormed new_id q
        → IsWellFormed new_id (create_bulk_jobs env tenant_id entries user_id q)
    unfolding create_bulk_jobs
    bulk-WellFormed env same tenant_id [] user_id q w = w
    bulk-WellFormed env same tenant_id (e ∷ es) user_id q w =
        let options : JobOptions = get_or e.options no_options in
        let r : Result QueueError Queue =
          create_job env tenant_id e.type e.data_ options user_id q in
        bulk-WellFormed env same tenant_id es user_id (caught r q) (
          caught-keeps (IsWellFormed new_id) r q
            (λ after h.
              create_job-WellFormed new_id env tenant_id e.type e.data_ options user_id q after inj
                same w h)
            w)

  -- Every operation keeps the table of jobs well formed: distinct ids, each given out by the database,
  -- and a row whose status goes with its other columns. The ids that the database gives out are
  -- distinct.
  pub Step-WellFormed :
      Injective new_id
      → (q after : Queue) → IsWellFormed new_id q
      → Step new_id q after
      → IsWellFormed new_id after
  Step-WellFormed inj q after w (created env same tenant_id type d options user_id _ e) =
      create_job-WellFormed new_id env tenant_id type d options user_id q after inj same w e
  Step-WellFormed inj q after w (created_bulk env same tenant_id entries user_id) =
      bulk-WellFormed inj env same tenant_id entries user_id q w
  Step-WellFormed inj q after w (claimed env types tenant) =
      get_next_job-WellFormed new_id env types tenant q w
  Step-WellFormed inj q after w (progressed id p) = update_progress-WellFormed new_id id p q w
  Step-WellFormed inj q after w (completed env id result _ e) =
      complete_job-WellFormed new_id env id result q after w e
  Step-WellFormed inj q after w (failed env id error should_retry) =
      fail_job-WellFormed new_id env id error should_retry q w
  Step-WellFormed inj q after w (retried env id tenant delay _ e) =
      retry_job-WellFormed new_id env id tenant delay q after w e
  Step-WellFormed inj q after w (cancelled id tenant _ e) =
      cancel_job-WellFormed new_id id tenant q after w e
  Step-WellFormed inj q after w (removed id) = remove_job-WellFormed new_id id q w
  Step-WellFormed inj q after w resumed = resume_pending_jobs-WellFormed new_id q w
  Step-WellFormed inj q after w (planned env tenant_id name type d cron options _ e) =
      plan-WellFormed env tenant_id name type d cron options q after w e
  Step-WellFormed inj q after w (unplanned id tenant_id _ e) =
      unplan-WellFormed id tenant_id q after w e
  Step-WellFormed inj q after w (swept env same) = sweep-WellFormed inj env same q w
  Step-WellFormed inj q after w (drained env start max_jobs budget_ms) =
      drain_queue-WellFormed env start max_jobs budget_ms q w

  -- A queue reached from a well-formed one by any operations of the service and of the processor, in
  -- any order, is well formed: no two jobs share an id, and each row's status goes with its other
  -- columns. The ids that the database gives out are distinct.
  pub Reaches-WellFormed :
      Injective new_id
      → (q after : Queue) → IsWellFormed new_id q
      → Reaches new_id q after
      → IsWellFormed new_id after
  Reaches-WellFormed inj q after w here = w
  Reaches-WellFormed inj q after w (next mid _ r s) =
      Step-WellFormed inj mid after (Reaches-WellFormed inj q mid w r) s
