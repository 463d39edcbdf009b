-- ===== src/Queue/Exclusive.antt =====
-- `getNextJob` of src/queue/queue.service.ts, called again.
use meru_core.Base.{String, Option, some, List, ◌≡◌, ◌≢◌, sym, ap, ◌∙◌, true, inl, inr, arith, In}
use meru_core.Queue.Types.{QueueJob, JobType, Queue}
use meru_core.Queue.Jobs.{Env, put_job, claim, claimable, take_job, get_next_job}
use meru_core.Queue.Rows.{In-put_job_cases}
use meru_core.Queue.Claim.{get_next_job-Ending, idle, claimed}

-- The row that a claim has taken, and the table it leaves.
pub record Taken (env : Env) (types : List JobType) (tenant : Option String) (q : Queue)
    (job : QueueJob) (after : Queue) : Type 0 where
  pub row : QueueJob
  pub there : In row q.jobs
  pub passes : claimable env types tenant row ≡ true
  pub given : job ≡ claim env row
  pub left : after.jobs ≡ put_job (claim env row) q.jobs

some-inj : {x y : QueueJob} → some x ≡ some y → x ≡ y
some-inj e = cc

pub get_next_job-Taken :
    (env : Env) (types : List JobType) (tenant : Option String) (q : Queue) (job : QueueJob)
    (after : Queue)
    → get_next_job env types tenant q ≡ (some job, after)
    → Taken env types tenant q job after
get_next_job-Taken env types tenant q job after e = elim (get_next_job-Ending env types tenant q) [
  | idle f _ ↦ cc (e, f)
  | claimed k m c _ f ↦
      let same : Path (Option QueueJob × Queue) (some job, after) (take_job env (some k) q) =
        sym e ∙ f in
      record {
        row = k;
        there = m;
        passes = c;
        given = some-inj (ap (λ r. r.0) same);
        left = ap (λ r. r.1.jobs) same;
      }
]

-- Two claims in a row never give out the same job, whoever asks and whenever.
pub get_next_job_exclusive :
    (env env' : Env) (types types' : List JobType) (tenant tenant' : Option String)
    (q mid after : Queue) (a b : QueueJob)
    → get_next_job env types tenant q ≡ (some a, mid)
    → get_next_job env' types' tenant' mid ≡ (some b, after)
    → a.id ≢ b.id
get_next_job_exclusive env env' types types' tenant tenant' q mid after a b e f same =
    let t = get_next_job-Taken env types tenant q a mid e in
    let u = get_next_job-Taken env' types' tenant' mid b after f in
    let ids : t.row.id ≡ u.row.id =
      ap (λ (x : QueueJob). x.id) (sym t.given) ∙ same ∙ ap (λ (x : QueueJob). x.id) u.given in
    elim (In-put_job_cases (claim env t.row) q.jobs u.row (rw (← t.left) u.there)) [
      | inl g ↦ ground (arith, ap (λ (x : QueueJob). x.status) g, u.passes)
      | inr g ↦ g.1 (sym ids)
    ]
