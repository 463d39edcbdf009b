-- ===== src/Queue/Kept.antt =====
-- What each operation of src/queue/queue.service.ts on a queued job does to the table's invariant.
use meru_core.Base.{
  ℕ, String, Option, none, some, List, [], ◌∷◌, ◌≡◌, refl, sym, subst, Bool, not, ◌&&◌, inl, inr,
  arith, map, In_of_All, All-map, All-imp, Bool-cases, Option-cases, ok, >>=-eq-ok, guard,
  from_option, from_option-eq-ok, ltb, ◌==◌,
}
use meru_core.Queue.Types.{
  QueueJob, JobStatus, JobType, JobResult, JobProgress, Queue, holds, job_not_found, not_retryable,
  not_cancellable, type_error,
}
use meru_core.Queue.Jobs.{Env, find_job, claim, get_next_job, of_tenant}
use meru_core.Queue.Settle.{
  remove_job, update_progress, completed_row, completed_queue, complete_found, complete_job,
  retrying_row, failed_row, fail_found, fail_job, get_job, retried_row, retry_job, cancel_job,
  resumed_row, resume_pending_jobs, is_retryable, is_settled,
}
use meru_core.Queue.Rows.{ids}
use meru_core.Queue.Claim.{get_next_job-Ending, idle, claimed}
use meru_core.Queue.Invariant.{
  IsSound, IsWellFormed, put-WellFormed, filter-WellFormed, found-IsSound, ok-inj, claim-IsSound,
  completed_row-IsSound, retrying_row-IsSound, failed_row-IsSound, retried_row-IsSound,
  cancelled-IsSound, resumed_row-IsSound, progressed-IsSound,
}

ids-resumed : (js : List QueueJob) → ids (map resumed_row js) ≡ ids js
ids-resumed [] = refl
ids-resumed (j ∷ js) = ground (arith, ids-resumed js)

module _ (new_id : ℕ → String) where
  pub remove_job-WellFormed :
      (id : String) (q : Queue) → IsWellFormed new_id q → IsWellFormed new_id (remove_job id q)
  unfolding remove_job
  remove_job-WellFormed id q w = filter-WellFormed new_id (λ j. not (j.id == id)) q.jobs q.given w

  pub get_next_job-WellFormed :
      (env : Env) (types : List JobType) (tenant : Option String) (q : Queue)
      → IsWellFormed new_id q
      → IsWellFormed new_id (get_next_job env types tenant q).1
  get_next_job-WellFormed env types tenant q w = elim (get_next_job-Ending env types tenant q) [
    | idle e _ ↦ subst (λ r. IsWellFormed new_id r.1) (sym e) w
    | claimed j m _ _ e ↦
        subst (λ r. IsWellFormed new_id r.1) (sym e)
          (put-WellFormed new_id (claim env j) q.jobs q.given w
            (claim-IsSound env j (In_of_All IsSound q.jobs w.sound j m)))
  ]

  pub update_progress-WellFormed :
      (id : String) (p : JobProgress) (q : Queue)
      → IsWellFormed new_id q
      → IsWellFormed new_id (update_progress id p q)
  unfolding update_progress
  update_progress-WellFormed id p q w = elim (Option-cases (find_job id q)) [
    | inl e ↦ rw e w
    | inr (j, e) ↦ rw e (
        put-WellFormed new_id (record j { progress = some p }) q.jobs q.given w
          (progressed-IsSound p j (found-IsSound new_id (λ k. k.id == id) q j w e)))
  ]

  completed_queue-WellFormed :
      (job : QueueJob) (q : Queue)
      → IsWellFormed new_id q
      → IsSound job
      → IsWellFormed new_id (completed_queue job q)
  completed_queue-WellFormed job q w h =
      let kept = put-WellFormed new_id job q.jobs q.given w h in
      elim (Bool-cases (holds job.options.remove_on_complete)) [
        | inl e ↦ rw e (remove_job-WellFormed job.id _ kept)
        | inr e ↦ rw e kept
      ]

  complete_found-WellFormed :
      (env : Env) (id : String) (result : JobResult) (q after : Queue) (o : Option QueueJob)
      → IsWellFormed new_id q
      → find_job id q ≡ o
      → complete_found env result o q ≡ ok after
      → IsWellFormed new_id after
  complete_found-WellFormed env id result q after none w f e =
      subst (IsWellFormed new_id) (ok-inj e) w
  complete_found-WellFormed env id result q after (some j) w f e =
      let (start, _, k) = >>=-eq-ok (from_option type_error j.processed_at) _ e in
      subst (IsWellFormed new_id) (ok-inj k) (
        completed_queue-WellFormed (completed_row env result start j) q w (
          completed_row-IsSound env result start j
            (found-IsSound new_id (λ x. x.id == id) q j w f)))

  pub complete_job-WellFormed :
      (env : Env) (id : String) (result : JobResult) (q after : Queue)
      → IsWellFormed new_id q
      → complete_job env id result q ≡ ok after
      → IsWellFormed new_id after
  unfolding complete_job
  complete_job-WellFormed env id result q after w e =
      complete_found-WellFormed env id result q after (find_job id q) w refl e

  fail_found-WellFormed :
      (env : Env) (id error : String) (should_retry : Bool) (q : Queue) (o : Option QueueJob)
      → IsWellFormed new_id q
      → find_job id q ≡ o
      → IsWellFormed new_id (fail_found env error should_retry o q)
  fail_found-WellFormed env id error should_retry q none w f = w
  fail_found-WellFormed env id error should_retry q (some j) w f =
      let h = found-IsSound new_id (λ k. k.id == id) q j w f in
      elim (Bool-cases (should_retry && ltb j.attempts j.max_attempts)) [
        | inl e ↦ rw e (
            put-WellFormed new_id (retrying_row env error j) q.jobs q.given w
              (retrying_row-IsSound env error j h (ground (arith, e))))
        | inr e ↦ rw e (
            put-WellFormed new_id (failed_row env error j) q.jobs q.given w
              (failed_row-IsSound env error j h))
      ]

  pub fail_job-WellFormed :
      (env : Env) (id error : String) (should_retry : Bool) (q : Queue)
      → IsWellFormed new_id q
      → IsWellFormed new_id (fail_job env id error should_retry q)
  unfolding fail_job
  fail_job-WellFormed env id error should_retry q w =
      fail_found-WellFormed env id error should_retry q (find_job id q) w refl

  get_job-IsSound :
      (id : String) (tenant : Option String) (q : Queue) (j : QueueJob)
      → IsWellFormed new_id q
      → get_job id tenant q ≡ ok j
      → IsSound j
  unfolding get_job
  get_job-IsSound id tenant q j w e =
      found-IsSound new_id (λ k. k.id == id && of_tenant tenant k) q j w
        (from_option-eq-ok job_not_found _ e)

  pub retry_job-WellFormed :
      (env : Env) (id : String) (tenant : Option String) (delay : Option ℕ) (q after : Queue)
      → IsWellFormed new_id q
      → retry_job env id tenant delay q ≡ ok after
      → IsWellFormed new_id after
  unfolding retry_job
  retry_job-WellFormed env id tenant delay q after w e =
      let (j, f, k) = >>=-eq-ok (get_job id tenant q) _ e in
      let (_, _, l) = >>=-eq-ok (guard (is_retryable j.status) not_retryable) _ k in
      subst (IsWellFormed new_id) (ok-inj l) (
        put-WellFormed new_id (retried_row env delay j) q.jobs q.given w
          (retried_row-IsSound env delay j (get_job-IsSound id tenant q j w f)))

  pub cancel_job-WellFormed :
      (id : String) (tenant : Option String) (q after : Queue)
      → IsWellFormed new_id q
      → cancel_job id tenant q ≡ ok after
      → IsWellFormed new_id after
  unfolding cancel_job
  cancel_job-WellFormed id tenant q after w e =
      let (j, f, k) = >>=-eq-ok (get_job id tenant q) _ e in
      let (_, _, l) = >>=-eq-ok (guard (not (is_settled j.status)) not_cancellable) _ k in
      subst (IsWellFormed new_id) (ok-inj l) (
        put-WellFormed new_id (record j { status = JobStatus.cancelled }) q.jobs q.given w
          (cancelled-IsSound j (get_job-IsSound id tenant q j w f)))

  pub resume_pending_jobs-WellFormed :
      (q : Queue) → IsWellFormed new_id q → IsWellFormed new_id (resume_pending_jobs q)
  unfolding resume_pending_jobs
  resume_pending_jobs-WellFormed q w = record {
    ids_distinct = rw (ids-resumed q.jobs) w.ids_distinct;
    known = rw (ids-resumed q.jobs) w.known;
    sound = All-map IsSound resumed_row q.jobs (All-imp resumed_row-IsSound q.jobs w.sound);
  }
