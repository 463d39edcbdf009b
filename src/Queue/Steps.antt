-- ===== src/Queue/Steps.antt =====
-- The steps of the queue of src/queue/queue.service.ts and src/queue/queue.processor.ts, and what
-- any run of them keeps.
use meru_core.Base.{
  ℕ, zero, suc, String, Option, none, some, List, [], ◌∷◌, ◌≡◌, refl, Bool, Result, ok, err, ltb,
  Bool-cases, Option-cases, inl, inr, Result-cases,
}
use meru_core.Jobs.Sweep.{sweep_from, Tally}
use meru_core.Queue.Types.{QueueJob, JobResult, Queue, QueueScheduledJob, QueueError, all_types}
use meru_core.Queue.Jobs.{Env, get_next_job, caught}
use meru_core.Queue.Settle.{complete_job, fail_job}
use meru_core.Queue.Schedule.{run_created}
use meru_core.Queue.Drain.{
  DrainEnv, Settlement, fulfilled, rejected, settle_job, message_of, process_job_internal, turn,
  drain,
}

-- A property that every turn of a sweep keeps, the sweep keeps.
pub sweep_from-keeps {ℓ} :
    {S A E : Type 0} (P : S → Type ℓ) (tenant_of id_of : A → String) (fn : A → S → S × Option E)
    → ((item : A) (s : S) → P s → P (fn item s).0)
    → (items : List A) (t : Tally E) (s : S) → P s
    → P (sweep_from tenant_of id_of fn t items s).1
sweep_from-keeps P tenant_of id_of fn h [] t s p = p
sweep_from-keeps P tenant_of id_of fn h (item ∷ items) t s p =
    sweep_from-keeps P tenant_of id_of fn h items _ _ (h item s p)

module _ {ℓ} (P : Queue → Type ℓ) where
  pub run_created-keeps :
      (env : Env) (s : QueueScheduledJob) (r : Result QueueError Queue) (q : Queue)
      → ((before after : Queue)
          → before.jobs ≡ after.jobs
          → before.given ≡ after.given
          → P before
          → P after)
      → ((after : Queue) → r ≡ ok after → P after)
      → P q
      → P (run_created env s r q).0
  run_created-keeps env s (err e) q f g p = p
  run_created-keeps env s (ok created) q f g p =
      elim (Option-cases (env.next_run s.cron_expression)) [
        | inl e ↦ rw e (g created refl)
        | inr (next, e) ↦ rw e (f created _ refl refl (g created refl))
      ]

  pub caught-keeps :
      (r : Result QueueError Queue) (q : Queue)
      → ((after : Queue) → r ≡ ok after → P after)
      → P q
      → P (caught r q)
  caught-keeps (ok after) q g p = g after refl
  caught-keeps (err e) q g p = p

  pub settle_job-keeps :
      (env : Env) (job : QueueJob) (v : Settlement) (q : Queue)
      → ((result : JobResult) (after : Queue)
          → complete_job env job.id result q ≡ ok after
          → P after)
      → ((error : String) (retry : Bool) → P (fail_job env job.id error retry q))
      → P (settle_job env job v q)
  settle_job-keeps env job (rejected message) q f g = g message _
  settle_job-keeps env job (fulfilled result) q f g =
      elim (Result-cases (complete_job env job.id result q)) [
        | inl (e, h) ↦ rw h (g (message_of e) _)
        | inr (after, h) ↦ rw h (f result after h)
      ]

  turn-keeps :
      (r : Option QueueJob × Queue) (next : QueueJob → Queue → ℕ × Queue) (n : ℕ)
      → P r.1
      → ((job : QueueJob) (q : Queue) → r ≡ (some job, q) → P q → P (next job q).1)
      → P (turn r next n).1
  turn-keeps (none, q) next n p h = p
  turn-keeps (some job, q) next n p h = h job q refl p

  pub drain-keeps :
      (env : DrainEnv)
      → ((n : ℕ) (q : Queue) → P q → P (get_next_job (env.claiming n) all_types none q).1)
      → ((n : ℕ) (job : QueueJob) (before q : Queue)
          → P before
          → get_next_job (env.claiming n) all_types none before ≡ (some job, q)
          → P q
          → P (process_job_internal (env.settling n) job (env.answers job) q))
      → (deadline left processed : ℕ) (q : Queue) → P q
      → P (drain env deadline left processed q).1
  drain-keeps env f g deadline zero processed q p = p
  drain-keeps env f g deadline (suc left) processed q p =
      elim (Bool-cases (ltb (env.claiming processed).now deadline)) [
        | inl e ↦
            rw (drain, e)
              (turn-keeps (get_next_job (env.claiming processed) all_types none q) _ processed
                (f processed q p)
                (λ job q' h p'.
                  drain-keeps env f g deadline left (suc processed) _
                    (g processed job q q' p h p')))
        | inr e ↦ rw (drain, e) p
      ]
