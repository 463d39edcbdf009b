-- ===== src/Queue/Draining.antt =====
-- `drainQueue` and `processJobInternal` of src/queue/queue.processor.ts: what a drain leaves.
use meru_core.Base.{
  ℕ, zero, suc, ◌+◌, ◌≤◌, ◌<◌, String, Option, none, some, ◌≡◌, refl, sym, ◌∙◌, subst, Bool, false,
  ◌⊎◌, inl, inr, arith, In, In-filter_iff, In_of_All, find?-eq-none, filter, >>=-eq-ok, from_option,
  All, ltb, leb, Bool-cases, ok, find?-eq-some, ◌==◌, eq_iff, not, ◌&&◌,
}
use meru_core.Queue.Types.{QueueJob, JobStatus, Queue, all_types, JobResult, type_error, holds}
use meru_core.Queue.Jobs.{Env, put_job, find_job, claimable, get_next_job}
use meru_core.Queue.Settle.{
  complete_job, complete_found, completed_row, completed_queue, fail_job, fail_found, failed_row,
  retrying_row, remove_job,
}
use meru_core.Queue.Drain.{
  DrainEnv, Answer, settlement_of, process_job_internal, turn, drain, drain_queue,
}
use meru_core.Queue.Rows.{In-put_job_cases}
use meru_core.Queue.Invariant.{ok-inj}
use meru_core.Queue.Steps.{settle_job-keeps}
use meru_core.Queue.Claim.{get_next_job-Ending, ClaimEnding, idle, claimed}

-- Why a drain is over after `n` jobs.
pub data Over (env : DrainEnv) (deadline max_jobs n : ℕ) (q : Queue) : Type 0 where
  full : n ≡ max_jobs → Over env deadline max_jobs n q
  late : deadline ≤ (env.claiming n).now → Over env deadline max_jobs n q
  empty :
      All (λ k. claimable (env.claiming n) all_types none k ≡ false) q.jobs
      → Over env deadline max_jobs n q

turn-Over :
    (env : DrainEnv) (deadline max_jobs n : ℕ) (q : Queue) (next : QueueJob → Queue → ℕ × Queue)
    → n ≤ max_jobs
    → ((job : QueueJob) (q' : Queue)
        → ((next job q').0 ≤ max_jobs) × Over env deadline max_jobs (next job q').0 (next job q').1)
    → ClaimEnding (env.claiming n) all_types none q (get_next_job (env.claiming n) all_types none q)
    → ((turn (get_next_job (env.claiming n) all_types none q) next n).0 ≤ max_jobs)
      × Over env deadline max_jobs
          (turn (get_next_job (env.claiming n) all_types none q) next n).0
          (turn (get_next_job (env.claiming n) all_types none q) next n).1
turn-Over env deadline max_jobs n q next l h (idle e nothing) = rw e (l, empty nothing)
turn-Over env deadline max_jobs n q next l h (claimed j m c _ e) = rw e (h _ _)

drain-Over :
    (env : DrainEnv) (deadline max_jobs left n : ℕ) (q : Queue)
    → n + left ≡ max_jobs
    → ((drain env deadline left n q).0 ≤ max_jobs)
      × Over env deadline max_jobs (drain env deadline left n q).0 (drain env deadline left n q).1
drain-Over env deadline max_jobs zero n q e = (omega (arith, e), full (omega (arith, e)))
drain-Over env deadline max_jobs (suc left) n q e =
    elim (Bool-cases (ltb (env.claiming n).now deadline)) [
      | inl h ↦
          rw (drain, h)
            (turn-Over env deadline max_jobs n q _ (omega (arith, e))
              (λ job q'. drain-Over env deadline max_jobs left (suc n) _ (omega (arith, e)))
              (get_next_job-Ending (env.claiming n) all_types none q))
      | inr h ↦ rw (drain, h) (omega (arith, e), late (ground (arith, h)))
    ]

-- A drain always ends, with no more than `maxJobs` jobs processed: it has processed exactly so many,
-- or the time is up at its next turn, or no claimable job is left, of any tenant and type.
pub drain_queue-Over :
    (env : DrainEnv) (start max_jobs budget_ms : ℕ) (q : Queue)
    → ((drain_queue env start max_jobs budget_ms q).0 ≤ max_jobs)
      × Over env
          (start + budget_ms)
          max_jobs
          (drain_queue env start max_jobs budget_ms q).0
          (drain_queue env start max_jobs budget_ms q).1
unfolding drain_queue
drain_queue-Over env start max_jobs budget_ms q =
    drain-Over env (start + budget_ms) max_jobs max_jobs 0 q (omega arith)

-- The status of a row that is no longer in work.
abbrev pub IsDone : JobStatus → Type 0
IsDone status =
    (status ≡ JobStatus.completed) ⊎ (status ≡ JobStatus.failed) ⊎ (status ≡ JobStatus.retrying)

-- Every row of the id is done.
abbrev pub IsDoneIn : String → Queue → Type 0
IsDoneIn id q = (k : QueueJob) → In k q.jobs → k.id ≡ id → IsDone k.status

put_job-IsDoneIn :
    (job : QueueJob) (q : Queue) (id : String)
    → job.id ≡ id
    → IsDone job.status
    → (k : QueueJob) → In k (put_job job q.jobs)
    → k.id ≡ id
    → IsDone k.status
put_job-IsDoneIn job q id e d k m f = elim (In-put_job_cases job q.jobs k m) [
  | inl g ↦ subst (λ (x : QueueJob). IsDone x.status) (sym g) d
  | inr g ↦ absurd (g.1 (f ∙ sym e))
]

completed_queue-IsDoneIn :
    (job : QueueJob) (q : Queue) (id : String)
    → job.id ≡ id
    → IsDone job.status
    → IsDoneIn id (completed_queue job q)
unfolding remove_job
completed_queue-IsDoneIn job q id e d k m f =
    elim (Bool-cases (holds job.options.remove_on_complete)) [
      | inl h ↦
          let m' : In k (filter (λ x. not (x.id == job.id)) (put_job job q.jobs)) = rw h at m in
          put_job-IsDoneIn job q id e d k
            ((In-filter_iff (λ x. not (x.id == job.id)) (put_job job q.jobs) k).0 m').0 f
      | inr h ↦ put_job-IsDoneIn job q id e d k (rw h at m) f
    ]

found_id : (id : String) (q : Queue) (j : QueueJob) → find_job id q ≡ some j → j.id ≡ id
found_id id q j e = (eq_iff j.id id).0 (find?-eq-some (λ x. x.id == id) q.jobs j e).1

none_found : (id : String) (q : Queue) → find_job id q ≡ none → IsDoneIn id q
none_found id q e k m f =
    let h =
      In_of_All (λ x. x.id == id ≡ false) q.jobs (find?-eq-none (λ x. x.id == id) q.jobs e) k m in
    absurd (ground (arith, eq_iff k.id id, f, h))

complete_found-IsDoneIn :
    (env : Env) (id : String) (result : JobResult) (q after : Queue) (o : Option QueueJob)
    → find_job id q ≡ o
    → complete_found env result o q ≡ ok after
    → IsDoneIn id after
complete_found-IsDoneIn env id result q after none f e =
    subst (IsDoneIn id) (ok-inj e) (none_found id q f)
complete_found-IsDoneIn env id result q after (some j) f e =
    let (start, _, k) = >>=-eq-ok (from_option type_error j.processed_at) _ e in
    subst (IsDoneIn id) (ok-inj k) (
      completed_queue-IsDoneIn (completed_row env result start j) q id (found_id id q j f)
        (inl refl))

fail_found-IsDoneIn :
    (env : Env) (id error : String) (should_retry : Bool) (q : Queue) (o : Option QueueJob)
    → find_job id q ≡ o
    → IsDoneIn id (fail_found env error should_retry o q)
fail_found-IsDoneIn env id error should_retry q none f = none_found id q f
fail_found-IsDoneIn env id error should_retry q (some j) f =
    elim (Bool-cases (should_retry && ltb j.attempts j.max_attempts)) [
      | inl e ↦
          rw e
            (put_job-IsDoneIn (retrying_row env error j) q id (found_id id q j f) (inr (inr refl)))
      | inr e ↦
          rw e (put_job-IsDoneIn (failed_row env error j) q id (found_id id q j f) (inr (inl refl)))
    ]

-- Once the processor is through with a job, however its handler answers and whatever has become of
-- the job meanwhile, no row of its id is in work: each is COMPLETED, FAILED or RETRYING.
pub process_job_internal-IsDoneIn :
    (env : Env) (job : QueueJob) (answer : Option Answer) (q : Queue)
    → IsDoneIn job.id (process_job_internal env job answer q)
unfolding process_job_internal complete_job fail_job
process_job_internal-IsDoneIn env job answer q =
    settle_job-keeps (IsDoneIn job.id) env job (settlement_of job answer) q
      (λ result after e.
        complete_found-IsDoneIn env job.id result q after (find_job job.id q) refl e)
      (λ error retry. fail_found-IsDoneIn env job.id error retry q (find_job job.id q) refl)

-- A job with no timeout of its own is processed alike however a handler answers that takes more than
-- 100 ms: as if no handler were registered.
pub process_job_internal_late :
    (env : Env) (job : QueueJob) (a : Answer) (q : Queue)
    → job.options.timeout ≡ none
    → 100 < a.at
    → process_job_internal env job (some a) q ≡ process_job_internal env job none q
unfolding process_job_internal settlement_of
process_job_internal_late env job a q e l =
    let h : leb a.at 100 ≡ false = ground (arith, l) in rw (e, h) refl
