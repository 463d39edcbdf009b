-- ===== src/Queue/Drain.antt =====
-- src/queue/queue.processor.ts: `processJobInternal` and `drainQueue`.
use meru_core.Base.{
  ℕ, zero, suc, ◌+◌, String, Option, none, some, Bool, true, false, if◌then◌else◌, ltb, leb, Result,
  ok, err, ◌+++◌, str, obj, field, done,
}
use meru_core.Queue.Types.{JobResult, QueueJob, Queue, QueueError, all_types, nonzero_or}
use meru_core.Queue.Jobs.{Env, get_next_job}
use meru_core.Queue.Settle.{complete_job, fail_job}

-- How the promise of a job's handler ends.
pub data Settlement : Type 0 where
  fulfilled : JobResult → Settlement
  rejected : String → Settlement

-- What a handler answers, with how many milliseconds it takes.
pub record Answer : Type 0 where
  pub at : ℕ
  pub value : Settlement

-- `setTimeout` takes a delay outside of 1 … 2³¹ - 1 for 1.
abbrev pub timer : ℕ → ℕ
timer zero = 1
timer (suc n) = if leb (suc n) 2147483647 then suc n else 1

abbrev pub no_handler : Settlement
no_handler = fulfilled (record {
  success = true;
  data_ = some (obj (field "message" (str "No handler registered for this job type") done));
  error = none;
})

abbrev pub timed_out : QueueJob → Settlement
timed_out job = rejected ("Job timeout: " +++ job.id)

-- The two timers alone: of the same delay, the timeout's stands first.
abbrev pub by_timer : ℕ → QueueJob → Settlement
by_timer timeout job = if leb timeout 100 then timed_out job else no_handler

-- A handler is first when it answers before the timeout, and no later than the default.
abbrev pub is_first : ℕ → ℕ → Bool
is_first timeout at = if leb timeout 100 then ltb at timeout else leb at 100

abbrev pub settle : ℕ → QueueJob → Option Answer → Settlement
settle timeout job none = by_timer timeout job
settle timeout job (some a) = if is_first timeout a.at then a.value else by_timer timeout job

-- `job.options.timeout || 300000`
unfoldable pub settlement_of : QueueJob → Option Answer → Settlement
settlement_of job answer = settle (timer (nonzero_or job.options.timeout 300000)) job answer

-- The message of the only exception that `completeJob` throws itself.
abbrev pub message_of : QueueError → String
message_of e = "Cannot read properties of null (reading 'getTime')"

abbrev pub failed_again : Env → QueueJob → String → Queue → Queue
failed_again env job message q = fail_job env job.id message (ltb job.attempts job.max_attempts) q

abbrev pub completed_or_failed : Env → QueueJob → Result QueueError Queue → Queue → Queue
completed_or_failed env job (ok after) q = after
completed_or_failed env job (err e) q = failed_again env job (message_of e) q

abbrev pub settle_job : Env → QueueJob → Settlement → Queue → Queue
settle_job env job (rejected message) q = failed_again env job message q
settle_job env job (fulfilled result) q =
    completed_or_failed env job (complete_job env job.id result q) q

unfoldable pub process_job_internal : Env → QueueJob → Option Answer → Queue → Queue
process_job_internal env job answer q = settle_job env job (settlement_of job answer) q

-- What surrounds a drain: what each turn finds when it claims and when it settles, and how the
-- handlers answer.
pub record DrainEnv : Type 0 where
  pub claiming : ℕ → Env
  pub settling : ℕ → Env
  pub answers : QueueJob → Option Answer

-- A turn that claims: it ends the loop when there is no job.
abbrev pub turn : Option QueueJob × Queue → (QueueJob → Queue → ℕ × Queue) → ℕ → ℕ × Queue
turn (none, q) next processed = (processed, q)
turn (some job, q) next processed = next job q

-- `left` turns are left of the `maxJobs`.
abbrev pub drain : DrainEnv → ℕ → ℕ → ℕ → Queue → ℕ × Queue
drain env deadline zero processed q = (processed, q)
drain env deadline (suc left) processed q = elim (ltb (env.claiming processed).now deadline) [
  | true ↦
      turn (get_next_job (env.claiming processed) all_types none q)
        (λ job claimed.
          drain env deadline left (suc processed)
            (process_job_internal (env.settling processed) job (env.answers job) claimed))
        processed
  | false ↦ (processed, q)
]

-- `start` is the instant of the call.
unfoldable pub drain_queue : DrainEnv → ℕ → ℕ → ℕ → Queue → ℕ × Queue
drain_queue env start max_jobs budget_ms q = drain env (start + budget_ms) max_jobs 0 q
