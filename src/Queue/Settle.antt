-- ===== src/Queue/Settle.antt =====
-- What becomes of a job of src/queue/queue.service.ts once it is queued: `updateProgress`,
-- `completeJob`, `failJob`, `getJob`, `getJobLogs`, `retryJob`, `cancelJob`, `removeJob` and
-- `resumePendingJobs`.
use meru_core.Base.{
  ℕ, zero, suc, ◌+◌, ◌*◌, ◌/◌, String, Option, none, some, List, Bool, false, not, ◌&&◌, ◌||◌, ◌==◌,
  if◌then◌else◌, ltb, filter, find?, map, Result, ok, ◌>>=◌, ◌>>◌, guard, from_option, sub_ℕ,
}
use Prim.Native.Nat.{◌^◌}
use meru_core.Queue.Types.{
  JobStatus, JobResult, JobProgress, fixed, exponential, Backoff, QueueJob, LogEvent, QueueJobLog,
  Queue, job_progress, job_completed, job_failed, QueueError, job_not_found, not_retryable,
  not_cancellable, type_error, same_job_status, nonzero_or, holds,
}
use meru_core.Queue.Jobs.{Env, save, find_job, emit, log_job_event, after_delay, of_tenant}

unfoldable pub remove_job : String → Queue → Queue
remove_job id q = record q {
  jobs = filter (λ j. not (j.id == id)) q.jobs;
  logs = filter (λ l. not (l.job_id == id)) q.logs;
}

-- `jobRepo.update`, which changes nothing when no row has the id
abbrev progress_saved : JobProgress → Option QueueJob → Queue → Queue
progress_saved p none q = q
progress_saved p (some j) q = save (record j { progress = some p }) q

unfoldable pub update_progress : String → JobProgress → Queue → Queue
update_progress id p q =
    emit (job_progress id)
      (log_job_event id LogEvent.progress none (progress_saved p (find_job id q) q))

-- The row that `completeJob` saves, its start read by `processedAt!.getTime()`.
abbrev pub completed_row : Env → JobResult → ℕ → QueueJob → QueueJob
completed_row env result start j = record j {
  status = JobStatus.completed;
  completed_at = some env.now;
  result = some result;
  duration = sub_ℕ env.now start;
}

abbrev pub completed_queue : QueueJob → Queue → Queue
completed_queue j q =
    let told = emit (job_completed j.id) (log_job_event j.id LogEvent.completed none (save j q)) in
    if holds j.options.remove_on_complete then remove_job j.id told else told

abbrev pub complete_found : Env → JobResult → Option QueueJob → Queue → Result QueueError Queue
complete_found env result none q = ok q
complete_found env result (some j) q = from_option type_error j.processed_at >>= λ start.
    ok (completed_queue (completed_row env result start j) q)

unfoldable pub complete_job : Env → String → JobResult → Queue → Result QueueError Queue
complete_job env id result q = complete_found env result (find_job id q) q

-- `delay * Math.pow(2, attempts - 1)`, cut to whole milliseconds by the date it is added to
abbrev pub doubled : ℕ → ℕ → ℕ
doubled delay zero = delay / 2
doubled delay (suc n) = delay * 2 ^ n

abbrev pub backoff_delay : Option Backoff → ℕ → ℕ
backoff_delay none attempts = 5000
backoff_delay (some b) attempts = elim (b.type) [
  | exponential ↦ doubled b.delay attempts
  | fixed ↦ b.delay
]

abbrev pub retrying_row : Env → String → QueueJob → QueueJob
retrying_row env error j = record j {
  last_error = some error;
  failed_at = some env.now;
  status = JobStatus.retrying;
  scheduled_for = some (env.now + backoff_delay j.options.backoff j.attempts);
}

abbrev pub failed_row : Env → String → QueueJob → QueueJob
failed_row env error j = record j {
  last_error = some error;
  failed_at = some env.now;
  status = JobStatus.failed;
  duration = sub_ℕ env.now (nonzero_or j.processed_at env.now);
  result = some (record { success = false; data_ = none; error = some error });
}

abbrev pub fail_found : Env → String → Bool → Option QueueJob → Queue → Queue
fail_found env error should_retry none q = q
fail_found env error should_retry (some j) q =
    if should_retry && ltb j.attempts j.max_attempts
    then save (retrying_row env error j) (log_job_event j.id LogEvent.retry (some j.attempts) q)
    else save (failed_row env error j)
        (emit (job_failed j.id) (log_job_event j.id LogEvent.failed (some j.attempts) q))

unfoldable pub fail_job : Env → String → String → Bool → Queue → Queue
fail_job env id error should_retry q = fail_found env error should_retry (find_job id q) q

unfoldable pub get_job : String → Option String → Queue → Result QueueError QueueJob
get_job id tenant q =
    from_option job_not_found (find? (λ j. j.id == id && of_tenant tenant j) q.jobs)

unfoldable pub get_job_logs : String → Queue → List QueueJobLog
get_job_logs id q = filter (λ l. l.job_id == id) q.logs

abbrev pub is_retryable : JobStatus → Bool
is_retryable status =
    same_job_status status JobStatus.failed || same_job_status status JobStatus.cancelled

abbrev pub retried_row : Env → Option ℕ → QueueJob → QueueJob
retried_row env delay j = record j {
  status = JobStatus.pending;
  attempts = 0;
  last_error = none;
  failed_at = none;
  completed_at = none;
  result = none;
  progress = none;
  scheduled_for = after_delay env.now delay;
}

unfoldable pub retry_job : Env → String → Option String → Option ℕ → Queue → Result QueueError Queue
retry_job env id tenant delay q = get_job id tenant q >>= λ j.
    guard (is_retryable j.status) not_retryable >> ok (save (retried_row env delay j) q)

abbrev pub is_settled : JobStatus → Bool
is_settled status =
    same_job_status status JobStatus.completed || same_job_status status JobStatus.failed

unfoldable pub cancel_job : String → Option String → Queue → Result QueueError Queue
cancel_job id tenant q = get_job id tenant q >>= λ j.
    guard (not (is_settled j.status)) not_cancellable
    >> ok (save (record j { status = JobStatus.cancelled }) q)

abbrev pub resumed_row : QueueJob → QueueJob
resumed_row j =
    if same_job_status j.status JobStatus.processing
    then record j { status = JobStatus.pending; processed_at = none }
    else j

unfoldable pub resume_pending_jobs : Queue → Queue
resume_pending_jobs q = record q { jobs = map resumed_row q.jobs }
