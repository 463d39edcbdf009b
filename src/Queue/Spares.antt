-- ===== src/Queue/Spares.antt =====
-- The operations of src/queue and the row of a job that waits for a later instant, in RETRYING or in
-- SCHEDULED.
use meru_core.Base.{
  ℕ, ◌+◌, String, Option, none, some, List, [], ◌∷◌, ◌≡◌, ◌≢◌, sym, ap, ◌∙◌, subst, Bool, true, not,
  ◌&&◌, ◌⊎◌, inl, inr, arith, eq_iff, ◌==◌, filter, find?, find?-eq-some, In, In-append_left,
  In-filter_iff, In-map, map, Bool-cases, Option-cases, Result, ok, >>=-eq-ok, guard, from_option,
  from_option-eq-ok, get_or, ltb,
}
use meru_core.Jobs.Sweep.{no_tally, run_tenant_bound_sweep}
use meru_core.Queue.Types.{
  QueueJob, JobStatus, JobType, JobData, JobOptions, JobResult, JobProgress, Queue,
  QueueScheduledJob, QueueError, all_types, positive, holds, write_failed, invalid_cron,
  scheduled_job_not_found, type_error, job_not_found, not_retryable, not_cancellable,
}
use meru_core.Queue.Jobs.{
  Env, find_job, create_job, create_bulk_jobs, BulkEntry, caught, get_next_job, no_options, claim,
  claimable, take_job, of_tenant,
}
use meru_core.Queue.Settle.{
  remove_job, update_progress, completed_row, completed_queue, complete_found, complete_job,
  fail_job, retrying_row, failed_row, get_job, retried_row, retry_job, cancel_job, resumed_row,
  resume_pending_jobs, is_retryable, is_settled,
}
use meru_core.Queue.Schedule.{
  ScheduleOptions, schedule_job, cancel_scheduled_job, run_schedule, is_due_schedule,
  process_scheduled_jobs,
}
use meru_core.Queue.Drain.{DrainEnv, Answer, process_job_internal, settlement_of, drain_queue}
use meru_core.Queue.Rows.{In-put_job_other, IsDistinct-same}
use meru_core.Queue.Claim.{get_next_job-Ending, idle, claimed}
use meru_core.Queue.Invariant.{IsWellFormed, ok-inj}
use meru_core.Queue.Kept.{get_next_job-WellFormed}
use meru_core.Queue.Steps.{
  sweep_from-keeps, run_created-keeps, settle_job-keeps, drain-keeps, caught-keeps,
}
use meru_core.Queue.Reach.{process_job_internal-WellFormed}

-- The status of a job that waits.
abbrev pub IsWaiting : JobStatus → Type 0
IsWaiting status = (status ≡ JobStatus.retrying) ⊎ (status ≡ JobStatus.scheduled)

some-inj : {x y : QueueJob} → some x ≡ some y → x ≡ y
some-inj e = cc

claimed_id :
    (env : Env) (k : QueueJob) (q : Queue) (k' : QueueJob) (after : Queue)
    → Path (Option QueueJob × Queue) (some k', after) (take_job env (some k) q)
    → k'.id ≡ k.id
claimed_id env k q k' after e = ap (λ (x : QueueJob). x.id) (some-inj (ap (λ r. r.0) e))

module _ (j : QueueJob) where
  abbrev pub Stands : Queue → Type 0
  Stands q = In j q.jobs

  found_other :
      (id : String) (q : Queue) (k : QueueJob) → id ≢ j.id → find_job id q ≡ some k → j.id ≢ k.id
  found_other id q k h e same =
      let found = (eq_iff k.id id).0 (find?-eq-some (λ x. x.id == id) q.jobs k e).1 in
      h (sym found ∙ sym same)

  pub remove_job-spares :
      (id : String) (q : Queue) → id ≢ j.id → Stands q → Stands (remove_job id q)
  unfolding remove_job
  remove_job-spares id q h m =
      (In-filter_iff (λ k. not (k.id == id)) q.jobs j).1 (m, ground (arith, eq_iff j.id id))

  completed_queue-spares :
      (k : QueueJob) (q : Queue) → j.id ≢ k.id → Stands q → Stands (completed_queue k q)
  completed_queue-spares k q h m =
      let kept = In-put_job_other k q.jobs j m h in
      elim (Bool-cases (holds k.options.remove_on_complete)) [
        | inl e ↦ rw e (remove_job-spares k.id _ (λ same. h (sym same)) kept)
        | inr e ↦ rw e kept
      ]

  pub complete_job-spares :
      (env : Env) (id : String) (result : JobResult) (q after : Queue)
      → id ≢ j.id
      → Stands q
      → complete_job env id result q ≡ ok after
      → Stands after
  unfolding complete_job
  complete_job-spares env id result q after h m e = elim (Option-cases (find_job id q)) [
    | inl f ↦ subst Stands (ok-inj (rw f at e)) m
    | inr (k, f) ↦
        let e' : complete_found env result (some k) q ≡ ok after = rw f at e in
        let (start, _, l) = >>=-eq-ok (from_option type_error k.processed_at) _ e' in
        subst Stands (ok-inj l)
          (completed_queue-spares (completed_row env result start k) q (found_other id q k h f) m)
  ]

  pub fail_job-spares :
      (env : Env) (id error : String) (should_retry : Bool) (q : Queue)
      → id ≢ j.id
      → Stands q
      → Stands (fail_job env id error should_retry q)
  unfolding fail_job
  fail_job-spares env id error should_retry q h m = elim (Option-cases (find_job id q)) [
    | inl f ↦ rw f m
    | inr (k, f) ↦ elim (Bool-cases (should_retry && ltb k.attempts k.max_attempts)) [
      | inl e ↦
          rw (f, e)
            (In-put_job_other (retrying_row env error k) q.jobs j m (found_other id q k h f))
      | inr e ↦
          rw (f, e) (In-put_job_other (failed_row env error k) q.jobs j m (found_other id q k h f))
    ]
  ]

  pub update_progress-spares :
      (id : String) (p : JobProgress) (q : Queue)
      → id ≢ j.id
      → Stands q
      → Stands (update_progress id p q)
  unfolding update_progress
  update_progress-spares id p q h m = elim (Option-cases (find_job id q)) [
    | inl f ↦ rw f m
    | inr (k, f) ↦
        rw f (In-put_job_other (record k { progress = some p }) q.jobs j m (found_other id q k h f))
  ]

  get_job_other :
      (id : String) (tenant : Option String) (q : Queue) (k : QueueJob)
      → id ≢ j.id
      → get_job id tenant q ≡ ok k
      → j.id ≢ k.id
  unfolding get_job
  get_job_other id tenant q k h e same =
      let f = from_option-eq-ok job_not_found _ e in
      let g = (find?-eq-some (λ x. x.id == id && of_tenant tenant x) q.jobs k f).1 in
      h (ground (arith, eq_iff k.id id, g, same))

  pub retry_job-spares :
      (env : Env) (id : String) (tenant : Option String) (delay : Option ℕ) (q after : Queue)
      → id ≢ j.id
      → Stands q
      → retry_job env id tenant delay q ≡ ok after
      → Stands after
  unfolding retry_job
  retry_job-spares env id tenant delay q after h m e =
      let (k, f, l) = >>=-eq-ok (get_job id tenant q) _ e in
      let (_, _, n) = >>=-eq-ok (guard (is_retryable k.status) not_retryable) _ l in
      subst Stands (ok-inj n)
        (In-put_job_other (retried_row env delay k) q.jobs j m (get_job_other id tenant q k h f))

  pub cancel_job-spares :
      (id : String) (tenant : Option String) (q after : Queue)
      → id ≢ j.id
      → Stands q
      → cancel_job id tenant q ≡ ok after
      → Stands after
  unfolding cancel_job
  cancel_job-spares id tenant q after h m e =
      let (k, f, l) = >>=-eq-ok (get_job id tenant q) _ e in
      let (_, _, n) = >>=-eq-ok (guard (not (is_settled k.status)) not_cancellable) _ l in
      subst Stands (ok-inj n) (
        In-put_job_other (record k { status = JobStatus.cancelled }) q.jobs j m
          (get_job_other id tenant q k h f))

  pub create_job-spares :
      (env : Env) (tenant_id : String) (type : JobType) (d : JobData) (options : JobOptions)
      (user_id : Option String) (q after : Queue)
      → Stands q
      → create_job env tenant_id type d options user_id q ≡ ok after
      → Stands after
  unfolding create_job
  create_job-spares env tenant_id type d options user_id q after m e =
      let (_, _, k) = >>=-eq-ok (guard (env.accepts tenant_id type) write_failed) _ e in
      let there = In-append_left q.jobs _ j m in
      elim (Bool-cases (positive options.delay)) [
        | inl h ↦ subst Stands (ok-inj (rw h at k)) there
        | inr h ↦ subst Stands (ok-inj (rw h at k)) there
      ]

  spared_by_claim :
      (new_id : ℕ → String) (env : Env) (types : List JobType) (tenant : Option String) (q : Queue)
      (k : QueueJob)
      → IsWellFormed new_id q
      → Stands q
      → IsWaiting j.status
      → In k q.jobs
      → claimable env types tenant k ≡ true
      → j.id ≢ k.id
  spared_by_claim new_id env types tenant q k w m waits n c same =
      let one : j ≡ k = IsDistinct-same q.jobs w.ids_distinct j k m n same in
      ground (arith, ap (λ (x : QueueJob). x.status) one)

  -- A claim never takes the row, and what it takes has another id.
  pub get_next_job-spares :
      (new_id : ℕ → String) (env : Env) (types : List JobType) (tenant : Option String) (q : Queue)
      → IsWellFormed new_id q
      → Stands q
      → IsWaiting j.status
      → Stands (get_next_job env types tenant q).1
        × ((k : QueueJob) (after : Queue)
            → get_next_job env types tenant q ≡ (some k, after)
            → k.id ≢ j.id)
  get_next_job-spares new_id env types tenant q w m waits =
      elim (get_next_job-Ending env types tenant q) [
        | idle e _ ↦ (subst (λ r. Stands r.1) (sym e) m, λ k after f. cc (e, f))
        | claimed k n c _ e ↦
            let h = spared_by_claim new_id env types tenant q k w m waits n c in
            (
              subst (λ r. Stands r.1) (sym e) (In-put_job_other (claim env k) q.jobs j m h),
              λ k' after f same. h (sym same ∙ claimed_id env k q k' after (sym f ∙ e)),
            )
      ]

  process_job_internal-spares :
      (env : Env) (job : QueueJob) (answer : Option Answer) (q : Queue)
      → job.id ≢ j.id
      → Stands q
      → Stands (process_job_internal env job answer q)
  unfolding process_job_internal
  process_job_internal-spares env job answer q h m =
      settle_job-keeps Stands env job (settlement_of job answer) q
        (λ result after e. complete_job-spares env job.id result q after h m e)
        (λ error retry. fail_job-spares env job.id error retry q h m)

  pub drain_queue-spares :
      (new_id : ℕ → String) (env : DrainEnv) (start max_jobs budget_ms : ℕ) (q : Queue)
      → IsWellFormed new_id q
      → Stands q
      → IsWaiting j.status
      → Stands (drain_queue env start max_jobs budget_ms q).1
  unfolding drain_queue
  drain_queue-spares new_id env start max_jobs budget_ms q w m waits =
      (drain-keeps (λ q'. IsWellFormed new_id q' × Stands q') env
        (λ n q' p. (
          get_next_job-WellFormed new_id (env.claiming n) all_types none q' p.0,
          (get_next_job-spares new_id (env.claiming n) all_types none q' p.0 p.1 waits).0,
        ))
        (λ n job before q' p e p'.
          let h =
            (get_next_job-spares new_id (env.claiming n) all_types none before p.0 p.1 waits).1 job
              q' e in
          (
            process_job_internal-WellFormed new_id (env.settling n) job (env.answers job) q' p'.0,
            process_job_internal-spares (env.settling n) job (env.answers job) q' h p'.1,
          ))
        (start + budget_ms) max_jobs 0 q (w, m)).1

  pub resume_pending_jobs-spares :
      (q : Queue) → Stands q → IsWaiting j.status → Stands (resume_pending_jobs q)
  unfolding resume_pending_jobs
  resume_pending_jobs-spares q m waits =
      let same : resumed_row j ≡ j = ground arith in
      subst (λ x. In x (map resumed_row q.jobs)) same (In-map resumed_row q.jobs j m)

  run_schedule-spares :
      (env : Env) (s : QueueScheduledJob) (q : Queue) → Stands q → Stands (run_schedule env s q).0
  unfolding run_schedule
  run_schedule-spares env s q m =
      run_created-keeps Stands env s _ q (λ before after e _ w. rw (← e) w)
        (λ after e. create_job-spares env s.tenant_id s.type s.data_ no_options none q after m e) m

  pub sweep-spares : (env : Env) (q : Queue) → Stands q → Stands (process_scheduled_jobs env q).1
  unfolding process_scheduled_jobs run_tenant_bound_sweep
  sweep-spares env q m =
      sweep_from-keeps Stands (λ s. s.tenant_id) (λ s. s.id) (run_schedule env)
        (run_schedule-spares env) (filter (is_due_schedule env.now) q.schedules) no_tally q m

  pub bulk-spares :
      (env : Env) (tenant_id : String) (entries : List BulkEntry) (user_id : Option String)
      (q : Queue)
      → Stands q
      → Stands (create_bulk_jobs env tenant_id entries user_id q)
  unfolding create_bulk_jobs
  bulk-spares env tenant_id [] user_id q m = m
  bulk-spares env tenant_id (e ∷ es) user_id q m =
      let options : JobOptions = get_or e.options no_options in
      let r : Result QueueError Queue = create_job env tenant_id e.type e.data_ options user_id q in
      bulk-spares env tenant_id es user_id (caught r q) (
        caught-keeps Stands r q
          (λ after h. create_job-spares env tenant_id e.type e.data_ options user_id q after m h) m)

  pub plan-spares :
      (env : Env) (tenant_id name : String) (type : JobType) (d : JobData) (cron : String)
      (options : ScheduleOptions) (q after : Queue)
      → Stands q
      → schedule_job env tenant_id name type d cron options q ≡ ok after
      → Stands after
  unfolding schedule_job
  plan-spares env tenant_id name type d cron options q after m e =
      let (_, _, k) = >>=-eq-ok (from_option (invalid_cron cron) (env.next_run cron)) _ e in
      subst Stands (ok-inj k) m

  pub unplan-spares :
      (id tenant_id : String) (q after : Queue)
      → Stands q
      → cancel_scheduled_job id tenant_id q ≡ ok after
      → Stands after
  unfolding cancel_scheduled_job
  unplan-spares id tenant_id q after m e =
      let (_, _, k) =
        >>=-eq-ok
          (from_option scheduled_job_not_found
            (find? (λ s. s.id == id && s.tenant_id == tenant_id) q.schedules))
          _ e in
      subst Stands (ok-inj k) m
