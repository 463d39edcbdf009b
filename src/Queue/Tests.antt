-- ===== src/Queue/Tests.antt =====
-- Runs of the queue of src/queue.
use meru_core.Base.{
  List, [], ◌∷◌, ℕ, zero, suc, ◌⊎◌, All, ◌≤◌, none, some, ◌≡◌, ◌≢◌, refl, inl, arith, In, Option,
}
use meru_core.Queue.Types.{all_types, QueueJob, Queue}
use meru_core.Queue.Jobs.{get_next_job, claim, take_job}
use meru_core.Queue.Drain.{DrainEnv, Answer, rejected, process_job_internal, drain_queue}
use meru_core.Queue.Claim.Chosen.{Waits, IsChosen, get_next_job-IsChosen}
use meru_core.Queue.Exclusive.{get_next_job_exclusive}
use meru_core.Queue.Invariant.{IsWellFormed}
use meru_core.Queue.Reach.{here, next, drained, Reaches-WellFormed}
use meru_core.Queue.Stranded.{untouched, then_, waiting-Unattended}
use meru_core.Queue.Draining.{
  Over, drain_queue-Over, IsDoneIn, process_job_internal-IsDoneIn, process_job_internal_late,
}
use meru_core.Queue.Listing.{JobFilter, get_jobs}
use meru_core.Queue.Listing.Paging.{pages}
use meru_core.Queue.Sample.{
  unary, unary-Injective, at_time, pending_job, urgent_job, waiting_job, two_jobs, waiting_queue,
  two_jobs-IsWellFormed, waiting_queue-IsWellFormed,
}

abbrev failing : DrainEnv
failing = record {
  claiming = at_time;
  settling = at_time;
  answers = λ job. some (record { at = 5; value = rejected "no" });
}

abbrev drained_queue : Queue
drained_queue = (drain_queue failing 0 25 30000 two_jobs).1

Reaches-WellFormed_example : IsWellFormed unary drained_queue
Reaches-WellFormed_example =
    Reaches-WellFormed unary unary-Injective two_jobs drained_queue two_jobs-IsWellFormed
      (next two_jobs drained_queue here (drained failing 0 25 30000))

waiting-Unattended_example : In waiting_job (drain_queue failing 5000 25 30000 waiting_queue).1.jobs
waiting-Unattended_example =
    waiting-Unattended unary waiting_job unary-Injective waiting_queue
      (drain_queue failing 5000 25 30000 waiting_queue).1 waiting_queue-IsWellFormed (inl refl)
      (inl refl)
      (then_ waiting_queue (drain_queue failing 5000 25 30000 waiting_queue).1 untouched
        (drained failing 5000 25 30000) tt)

get_next_job-IsChosen_example :
    ((get_next_job (at_time 500) all_types none two_jobs ≡ (none, two_jobs))
      × All (λ k. Waits (at_time 500) all_types none k → ⊥) two_jobs.jobs)
    ⊎ ((j : QueueJob) × IsChosen
          (at_time 500)
          all_types
          none
          two_jobs
          (get_next_job (at_time 500) all_types none two_jobs)
          j)
get_next_job-IsChosen_example = get_next_job-IsChosen (at_time 500) all_types none two_jobs

abbrev first_claim : Queue
first_claim = (take_job (at_time 500) (some urgent_job) two_jobs).1

abbrev second_claim : Queue
second_claim = (take_job (at_time 600) (some pending_job) first_claim).1

first_given :
    Path
      (Option QueueJob × Queue)
      (get_next_job (at_time 500) all_types none two_jobs)
      (some (claim (at_time 500) urgent_job), first_claim)
unfolding get_next_job
first_given = refl

second_given :
    Path
      (Option QueueJob × Queue)
      (get_next_job (at_time 600) all_types none first_claim)
      (some (claim (at_time 600) pending_job), second_claim)
unfolding get_next_job
second_given = refl

get_next_job_exclusive_example :
    (claim (at_time 500) urgent_job).id ≢ (claim (at_time 600) pending_job).id
get_next_job_exclusive_example =
    get_next_job_exclusive (at_time 500) (at_time 600) all_types all_types none none two_jobs
      first_claim second_claim (claim (at_time 500) urgent_job) (claim (at_time 600) pending_job)
      first_given second_given

drain_queue-Over_example :
    ((drain_queue failing 0 25 30000 two_jobs).0 ≤ 25)
    × Over failing 30000 25
        (drain_queue failing 0 25 30000 two_jobs).0
        (drain_queue failing 0 25 30000 two_jobs).1
drain_queue-Over_example = drain_queue-Over failing 0 25 30000 two_jobs

abbrev claimed_job : QueueJob
claimed_job = claim (at_time 500) urgent_job

abbrev slow : Answer
slow = record { at = 250; value = rejected "mail server down" }

process_job_internal-IsDoneIn_example :
    IsDoneIn "11" (process_job_internal (at_time 900) claimed_job (some slow) first_claim)
process_job_internal-IsDoneIn_example =
    process_job_internal-IsDoneIn (at_time 900) claimed_job (some slow) first_claim

process_job_internal_late_example :
    process_job_internal (at_time 900) claimed_job (some slow) first_claim
    ≡ process_job_internal (at_time 900) claimed_job none first_claim
process_job_internal_late_example =
    process_job_internal_late (at_time 900) claimed_job slow first_claim refl (omega arith)

abbrev any_job : JobFilter
any_job = record {
  tenant_id = some "t";
  status = none;
  type = none;
  user_id = none;
  priority = none;
  created_after = none;
  created_before = none;
  tags = none;
}

-- Where two rows tie, a page may repeat a row of the page before and the other row is never read.
abbrev twin_job : QueueJob
twin_job = record pending_job { id = "1111" }

abbrev swapped : List QueueJob → List QueueJob
swapped (a ∷ b ∷ []) = b ∷ a ∷ []
swapped js = js

abbrev tied_jobs : Queue
tied_jobs = record two_jobs { jobs = pending_job ∷ twin_job ∷ [] }

abbrev restless : ℕ → List QueueJob → List QueueJob
restless zero js = js
restless (suc n) js = swapped js

row_repeated : pages restless any_job 1 2 tied_jobs ≡ pending_job ∷ pending_job ∷ []
unfolding get_jobs
row_repeated = refl
