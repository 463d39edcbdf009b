-- ===== src/Queue/Stranded.antt =====
-- The jobs of src/queue that wait for a later instant: those in RETRYING and in SCHEDULED.
use meru_core.Base.{ℕ, String, ◌≢◌, In}
use meru_core.Queue.Types.{QueueJob, Queue}
use meru_core.Queue.Invariant.{Injective, IsWellFormed}
use meru_core.Queue.Reach.{
  Step, created, created_bulk, claimed, progressed, completed, failed, retried, cancelled, removed,
  resumed, planned, unplanned, swept, drained, Step-WellFormed,
}
use meru_core.Queue.Spares.{
  IsWaiting, Stands, remove_job-spares, complete_job-spares, fail_job-spares,
  update_progress-spares, retry_job-spares, cancel_job-spares, create_job-spares,
  get_next_job-spares, drain_queue-spares, resume_pending_jobs-spares, sweep-spares, bulk-spares,
  plan-spares, unplan-spares,
}

-- The step is not a call that names the job `id`.
abbrev pub Spares : {new_id : ℕ → String} {q after : Queue} → String → Step new_id q after → Type 0
Spares id (progressed i _) = i ≢ id
Spares id (completed _ i _ _ _) = i ≢ id
Spares id (failed _ i _ _) = i ≢ id
Spares id (retried _ i _ _ _ _) = i ≢ id
Spares id (cancelled i _ _ _) = i ≢ id
Spares id (removed i) = i ≢ id
Spares id _ = Unit

-- What the queue does with no call that names the job `id`.
pub data Unattended (new_id : ℕ → String) (id : String) (q : Queue) : Queue → Type 0 where
  untouched : Unattended new_id id q q
  then_ :
      (mid after : Queue)
      → Unattended new_id id q mid
      → (s : Step new_id mid after) → Spares id s
      → Unattended new_id id q after

module _ (new_id : ℕ → String) (j : QueueJob) where
  Step-spares :
      (q after : Queue)
      → IsWellFormed new_id q
      → IsWaiting j.status
      → Stands j q
      → (s : Step new_id q after) → Spares j.id s
      → Stands j after
  Step-spares q after w waits m (created env _ tenant_id type d options user_id _ e) h =
      create_job-spares j env tenant_id type d options user_id q after m e
  Step-spares q after w waits m (created_bulk env _ tenant_id entries user_id) h =
      bulk-spares j env tenant_id entries user_id q m
  Step-spares q after w waits m (claimed env types tenant) h =
      (get_next_job-spares j new_id env types tenant q w m waits).0
  Step-spares q after w waits m (progressed id p) h = update_progress-spares j id p q h m
  Step-spares q after w waits m (completed env id result _ e) h =
      complete_job-spares j env id result q after h m e
  Step-spares q after w waits m (failed env id error should_retry) h =
      fail_job-spares j env id error should_retry q h m
  Step-spares q after w waits m (retried env id tenant delay _ e) h =
      retry_job-spares j env id tenant delay q after h m e
  Step-spares q after w waits m (cancelled id tenant _ e) h =
      cancel_job-spares j id tenant q after h m e
  Step-spares q after w waits m (removed id) h = remove_job-spares j id q h m
  Step-spares q after w waits m resumed h = resume_pending_jobs-spares j q m waits
  Step-spares q after w waits m (planned env tenant_id name type d cron options _ e) h =
      plan-spares j env tenant_id name type d cron options q after m e
  Step-spares q after w waits m (unplanned id tenant_id _ e) h =
      unplan-spares j id tenant_id q after m e
  Step-spares q after w waits m (swept env _) h = sweep-spares j env q m
  Step-spares q after w waits m (drained env start max_jobs budget_ms) h =
      drain_queue-spares j new_id env start max_jobs budget_ms q w m waits

  kept :
      Injective new_id
      → (q after : Queue) → IsWellFormed new_id q
      → Stands j q
      → IsWaiting j.status
      → Unattended new_id j.id q after
      → IsWellFormed new_id after × Stands j after
  kept inj q after w m waits untouched = (w, m)
  kept inj q after w m waits (then_ mid _ u s h) =
      let (w', m') = kept inj q mid w m waits u in
      (Step-WellFormed new_id inj mid after w' s, Step-spares mid after w' waits m' s h)

  -- A job in RETRYING or in SCHEDULED never runs: its row stands unchanged, whatever the instant,
  -- after any operations of a well-formed queue (creations, claims, drains, sweeps, resumptions,
  -- settlements) of which none names the job. The ids that the database gives out are distinct.
  pub waiting-Unattended :
      Injective new_id
      → (q after : Queue) → IsWellFormed new_id q
      → In j q.jobs
      → IsWaiting j.status
      → Unattended new_id j.id q after
      → In j after.jobs
  waiting-Unattended inj q after w m waits u = (kept inj q after w m waits u).1
