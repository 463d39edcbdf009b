-- ===== src/Queue/Claim/Chosen.antt =====
-- Which job `getNextJob` of src/queue/queue.service.ts gives to a worker, said of the rows themselves.
use mathlib.Core.Bool.{false≢true}
use meru_core.Base.{
  ℕ, suc, String, Option, none, some, List, [], ◌∷◌, ◌≡◌, ◌≢◌, refl, sym, ap, ◌∙◌, true, ◌⊎◌, inl,
  inr, ◌≤◌, ◌<◌, ◌↔◌, arith, eq_iff, In, All, All-imp, All-of_In, includes_iff, map,
}
use meru_core.Queue.Rows.{ids, In-put_job_self, In-put_job_other}
use meru_core.Queue.Types.{
  QueueJob, JobType, JobStatus, Queue, type_name, priority_rank, same_job_status,
}
use meru_core.Queue.Jobs.{Env, claimable, of_tenant, is_due, get_next_job}
use meru_core.Queue.Claim.{NoLater, idle, claimed, get_next_job-Ending}

abbrev pub IsTenants : Option String → QueueJob → Type 0
IsTenants none j = Unit
IsTenants (some t) j = (t ≡ "") ⊎ (j.tenant_id ≡ t)

abbrev pub IsDueBy : ℕ → Option ℕ → Type 0
IsDueBy now none = Unit
IsDueBy now (some at) = at ≤ now

-- A job that waits: pending, due, of the tenant if one is asked for, of a type that is asked for, and not
-- locked by another transaction.
abbrev pub Waits : Env → List JobType → Option String → QueueJob → Type 0
Waits env types tenant j =
    (j.status ≡ JobStatus.pending)
    × IsTenants tenant j
    × In (type_name j.type) (map type_name types)
    × IsDueBy env.now j.scheduled_for
    × (In j.id env.locked → ⊥)

-- `a` has the smaller priority number, or the same one and no later creation.
abbrev pub GoesFirst : QueueJob → QueueJob → Type 0
GoesFirst a b =
    (priority_rank a.priority < priority_rank b.priority)
    ⊎ ((priority_rank a.priority ≡ priority_rank b.priority) × (a.created_at ≤ b.created_at))

NoLater-GoesFirst : (a b : QueueJob) → NoLater a b → GoesFirst a b
NoLater-GoesFirst a b h = ground arith

of_tenant_iff : (o : Option String) (j : QueueJob) → (of_tenant o j ≡ true) ↔ IsTenants o j
of_tenant_iff none j = (λ _. tt, λ _. refl)
of_tenant_iff (some t) j = ground (arith, eq_iff t "", eq_iff j.tenant_id t)

is_due_iff : (now : ℕ) (o : Option ℕ) → (is_due now o ≡ true) ↔ IsDueBy now o
is_due_iff now none = (λ _. tt, λ _. refl)
is_due_iff now (some at) = ground arith

same_job_status_iff :
    (s : JobStatus) → (same_job_status s JobStatus.pending ≡ true) ↔ (s ≡ JobStatus.pending)
same_job_status_iff JobStatus.pending = (λ _. refl, λ _. refl)
same_job_status_iff JobStatus.processing = (λ e. absurd (false≢true e), λ e. cc e)
same_job_status_iff JobStatus.completed = (λ e. absurd (false≢true e), λ e. cc e)
same_job_status_iff JobStatus.failed = (λ e. absurd (false≢true e), λ e. cc e)
same_job_status_iff JobStatus.retrying = (λ e. absurd (false≢true e), λ e. cc e)
same_job_status_iff JobStatus.cancelled = (λ e. absurd (false≢true e), λ e. cc e)
same_job_status_iff JobStatus.scheduled = (λ e. absurd (false≢true e), λ e. cc e)

claimable_iff :
    (env : Env) (types : List JobType) (tenant : Option String) (j : QueueJob)
    → (claimable env types tenant j ≡ true) ↔ Waits env types tenant j
claimable_iff env types tenant j = grind (
  arith,
  same_job_status_iff j.status,
  of_tenant_iff tenant j,
  includes_iff (map type_name types) (type_name j.type),
  is_due_iff env.now j.scheduled_for,
  includes_iff env.locked j.id,
)

-- The row of a job that a worker has been given.
abbrev pub given : Env → QueueJob → QueueJob
given env j = record j {
  status = JobStatus.processing;
  processed_at = some env.now;
  attempts = suc j.attempts;
}

-- The job is the first of those that wait, its row says that it is in work, and the other rows stay.
pub record IsChosen (env : Env) (types : List JobType) (tenant : Option String) (q : Queue)
    (r : Option QueueJob × Queue) (j : QueueJob) : Type 0 where
  pub in_table : In j q.jobs
  pub waits : Waits env types tenant j
  pub is_earliest : All (λ k. Waits env types tenant k → GoesFirst j k) q.jobs
  pub handed_over : r.0 ≡ some (given env j)
  pub in_work : In (given env j) r.1.jobs
  pub others_stay : All (λ k. k.id ≢ j.id → In k r.1.jobs) q.jobs

In-ids : (j : QueueJob) (js : List QueueJob) → In j js → In j.id (ids js)
In-ids j [] m = absurd m
In-ids j (k ∷ ks) (inl e) = inl (ap (λ (x : QueueJob). x.id) e)
In-ids j (k ∷ ks) (inr m) = inr (In-ids j ks m)

-- `getNextJob` gives nothing, and changes nothing, only when no job waits: none that is pending, due, of
-- the asked tenant and types and not locked. Otherwise it gives the waiting job with the smallest priority
-- number, and of these one that no other was created before, and its row is in work since now with one more
-- attempt, while the rows of other ids stay.
pub get_next_job-IsChosen :
    (env : Env) (types : List JobType) (tenant : Option String) (q : Queue)
    → ((get_next_job env types tenant q ≡ (none, q))
        × All (λ k. Waits env types tenant k → ⊥) q.jobs)
      ⊎ ((j : QueueJob) × IsChosen env types tenant q (get_next_job env types tenant q) j)
get_next_job-IsChosen env types tenant q = elim (get_next_job-Ending env types tenant q) [
  | idle e nothing ↦ inl (
    e,
    All-imp (λ k f w. false≢true (sym f ∙ (claimable_iff env types tenant k).1 w)) q.jobs nothing,
  )
  | claimed j m c least e ↦ inr (
    j,
    rw e (record {
      in_table = m;
      waits = (claimable_iff env types tenant j).0 c;
      is_earliest =
          All-imp (λ k h w. NoLater-GoesFirst j k (h ((claimable_iff env types tenant k).1 w)))
            q.jobs least;
      handed_over = refl;
      in_work = In-put_job_self (given env j) q.jobs (In-ids j q.jobs m);
      others_stay =
          All-of_In q.jobs (λ k n differs. In-put_job_other (given env j) q.jobs k n differs);
    }),
  )
]
