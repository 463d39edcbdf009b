-- ===== src/Queue/Invariant.antt =====
-- The invariant of the table of jobs of src/queue/queue.service.ts.
use meru_core.Base.{
  ℕ, suc, ◌≤◌, ◌<◌, String, Option, some, is_some, List, [], ◌∷◌, ◌++◌, ◌≡◌, ◌≢◌, refl, sym, ap,
  ◌∙◌, subst, Bool, true, inl, inr, arith, filter, find?, find?-eq-some, All, All-imp, In_of_All,
  Bool-cases, Result, ok, >>=-eq-ok, guard,
}
use meru_core.Queue.Types.{
  QueueJob, JobStatus, JobType, JobData, JobOptions, JobResult, JobProgress, Queue, positive,
  write_failed,
}
use meru_core.Queue.Jobs.{Env, put_job, insert_job, new_job, create_job, claim}
use meru_core.Queue.Settle.{completed_row, retrying_row, failed_row, retried_row, resumed_row}
use meru_core.Queue.Rows.{
  ids, IsDistinct, ids-put_job, IsDistinct-append, IsDistinct-filter, All-snoc, All-filter,
  All-put_job, All-ids-filter,
}

-- What the status of a row says of its other columns.
pub record IsSound (j : QueueJob) : Type 0 where
  pub tries : 1 ≤ j.max_attempts
  pub started : j.status ≡ JobStatus.processing → is_some j.processed_at ≡ true
  pub tried : j.status ≡ JobStatus.processing → 1 ≤ j.attempts
  pub finished :
      j.status ≡ JobStatus.completed → (is_some j.completed_at ≡ true) × (is_some j.result ≡ true)
  pub failed_ :
      j.status ≡ JobStatus.failed → (is_some j.failed_at ≡ true) × (is_some j.last_error ≡ true)
  pub parked : j.status ≡ JobStatus.retrying → is_some j.scheduled_for ≡ true
  pub retries : j.status ≡ JobStatus.retrying → j.attempts < j.max_attempts
  pub delayed : j.status ≡ JobStatus.scheduled → is_some j.scheduled_for ≡ true

module _ (env : Env) where
  new_job-IsSound :
      (id tenant_id : String) (type : JobType) (d : JobData) (options : JobOptions)
      (user_id : Option String)
      → IsSound (new_job env id tenant_id type d options user_id)
  unfolding new_job
  new_job-IsSound id tenant_id type d options user_id = ground arith

  pub claim-IsSound : (j : QueueJob) → IsSound j → IsSound (claim env j)
  claim-IsSound j h = ground arith

  pub completed_row-IsSound :
      (result : JobResult) (start : ℕ) (j : QueueJob)
      → IsSound j
      → IsSound (completed_row env result start j)
  completed_row-IsSound result start j h = ground arith

  pub retrying_row-IsSound :
      (e : String) (j : QueueJob)
      → IsSound j
      → j.attempts < j.max_attempts
      → IsSound (retrying_row env e j)
  retrying_row-IsSound e j h l = ground arith

  pub failed_row-IsSound : (e : String) (j : QueueJob) → IsSound j → IsSound (failed_row env e j)
  failed_row-IsSound e j h = ground arith

  pub retried_row-IsSound :
      (delay : Option ℕ) (j : QueueJob) → IsSound j → IsSound (retried_row env delay j)
  retried_row-IsSound delay j h = ground arith

pub cancelled-IsSound :
    (j : QueueJob) → IsSound j → IsSound (record j { status = JobStatus.cancelled })
cancelled-IsSound j h = ground arith

pub resumed_row-IsSound : (j : QueueJob) → IsSound j → IsSound (resumed_row j)
resumed_row-IsSound j h = ground arith

pub progressed-IsSound :
    (p : JobProgress) (j : QueueJob) → IsSound j → IsSound (record j { progress = some p })
progressed-IsSound p j h = ground arith

-- The id is one of the first `given` that the database gave out.
abbrev pub IsGiven : (ℕ → String) → ℕ → String → Type 0
IsGiven new_id given id = (k : ℕ) × (k < given) × (id ≡ new_id k)

abbrev pub Injective : (ℕ → String) → Type 0
Injective new_id = (m n : ℕ) → new_id m ≡ new_id n → m ≡ n

-- No two jobs share an id, every id was given out, and every row is sound.
pub record WellFormed (new_id : ℕ → String) (jobs : List QueueJob) (given : ℕ) : Type 0 where
  pub ids_distinct : IsDistinct (ids jobs)
  pub known : All (IsGiven new_id given) (ids jobs)
  pub sound : All IsSound jobs

abbrev pub IsWellFormed : (ℕ → String) → Queue → Type 0
IsWellFormed new_id q = WellFormed new_id q.jobs q.given

ids-snoc : (js : List QueueJob) (j : QueueJob) → ids (js ++ j ∷ []) ≡ ids js ++ j.id ∷ []
ids-snoc [] j = refl
ids-snoc (k ∷ js) j = ap (λ xs. k.id ∷ xs) (ids-snoc js j)

new_job_id :
    (env : Env) (tenant_id : String) (type : JobType) (d : JobData) (options : JobOptions)
    (user_id : Option String) (q : Queue) (new_id : ℕ → String)
    → env.new_id ≡ new_id
    → (new_job env (env.new_id q.given) tenant_id type d options user_id).id ≡ new_id q.given
unfolding new_job
new_job_id env tenant_id type d options user_id q new_id same = ap (λ f. f q.given) same

pub ok-inj : {E A : Type 0} {x y : A} → Path (Result E A) (ok x) (ok y) → x ≡ y
ok-inj e = cc

module _ (new_id : ℕ → String) where
  pub put-WellFormed :
      (job : QueueJob) (jobs : List QueueJob) (given : ℕ)
      → WellFormed new_id jobs given
      → IsSound job
      → WellFormed new_id (put_job job jobs) given
  put-WellFormed job jobs given w h = record {
    ids_distinct = subst (λ xs. IsDistinct xs) (sym (ids-put_job job jobs)) w.ids_distinct;
    known = subst (λ xs. All (IsGiven new_id given) xs) (sym (ids-put_job job jobs)) w.known;
    sound = All-put_job IsSound job jobs h w.sound;
  }

  pub filter-WellFormed :
      (p : QueueJob → Bool) (jobs : List QueueJob) (given : ℕ)
      → WellFormed new_id jobs given
      → WellFormed new_id (filter p jobs) given
  filter-WellFormed p jobs given w = record {
    ids_distinct = IsDistinct-filter p jobs w.ids_distinct;
    known = All-ids-filter (IsGiven new_id given) p jobs w.known;
    sound = All-filter IsSound p jobs w.sound;
  }

  unused :
      Injective new_id
      → {id : String} {n : ℕ} → id ≡ new_id n
      → (y : String) → IsGiven new_id n y
      → y ≢ id
  unused inj e y (k, l, g) same = let n = inj k _ (sym g ∙ same ∙ e) in omega (arith, l, n)

  insert-WellFormed :
      (job : QueueJob) (q : Queue)
      → Injective new_id
      → job.id ≡ new_id q.given
      → IsSound job
      → IsWellFormed new_id q
      → IsWellFormed new_id (insert_job job q)
  insert-WellFormed job q inj e h w =
      let fresh : All (λ y. y ≢ job.id) (ids q.jobs) =
        All-imp (λ y g same. absurd (unused inj e y g same)) (ids q.jobs) w.known in
      let grown : All (IsGiven new_id (suc q.given)) (ids q.jobs) =
        All-imp (λ y g. let (k, l, e') = g in (k, omega (arith, l), e')) (ids q.jobs) w.known in
      record {
        ids_distinct =
            subst IsDistinct (sym (ids-snoc q.jobs job))
              (IsDistinct-append (ids q.jobs) job.id w.ids_distinct fresh);
        known =
            subst (All (IsGiven new_id (suc q.given))) (sym (ids-snoc q.jobs job)) (
              All-snoc (IsGiven new_id (suc q.given)) (ids q.jobs) grown (q.given, omega arith, e));
        sound = All-snoc IsSound q.jobs w.sound h;
      }

  pub found-IsSound :
      (p : QueueJob → Bool) (q : Queue) (j : QueueJob)
      → IsWellFormed new_id q
      → find? p q.jobs ≡ some j
      → IsSound j
  found-IsSound p q j w e = In_of_All IsSound q.jobs w.sound j (find?-eq-some p q.jobs j e).0

  pub create_job-WellFormed :
      (env : Env) (tenant_id : String) (type : JobType) (d : JobData) (options : JobOptions)
      (user_id : Option String) (q after : Queue)
      → Injective new_id
      → env.new_id ≡ new_id
      → IsWellFormed new_id q
      → create_job env tenant_id type d options user_id q ≡ ok after
      → IsWellFormed new_id after
  unfolding create_job
  create_job-WellFormed env tenant_id type d options user_id q after inj same w e =
      let job : QueueJob = new_job env (env.new_id q.given) tenant_id type d options user_id in
      let wf : IsWellFormed new_id (insert_job job q) =
        insert-WellFormed job q inj (new_job_id env tenant_id type d options user_id q new_id same)
          (new_job-IsSound env (env.new_id q.given) tenant_id type d options user_id) w in
      let (_, _, k) = >>=-eq-ok (guard (env.accepts tenant_id type) write_failed) _ e in
      elim (Bool-cases (positive options.delay)) [
        | inl h ↦ subst (IsWellFormed new_id) (ok-inj (rw h at k)) wf
        | inr h ↦ subst (IsWellFormed new_id) (ok-inj (rw h at k)) wf
      ]
