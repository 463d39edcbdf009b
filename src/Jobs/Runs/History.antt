-- ===== src/Jobs/Runs/History.antt =====
-- The rows that `record` of src/jobs/job-run.service.ts keeps, against all the runs so far.
use meru_core.Base.{
  ℕ, suc, ◌+◌, String, Option, none, some, List, [], ◌∷◌, ◌≡◌, refl, ◌∙◌, Bool, true, false, ◌==◌,
  arith, eq_iff, if◌then◌else◌, filter, length, Bool-cases, inl, inr,
}
use meru_core.Jobs.Runs.{
  RunStatus, ok_, failed, suspect, JobRun, RunOutcome, when_ok, first_run, next_run, upsert_run,
  record_run, find_run,
}

-- One call of `record`.
pub record Recorded : Type 0 where
  pub job : String
  pub outcome : RunOutcome
  pub at : ℕ

-- The table after the calls, the newest of them first.
abbrev pub replay : List Recorded → List JobRun
replay [] = []
replay (e ∷ es) = record_run true e.job e.outcome e.at (replay es)

-- The calls of one job.
abbrev pub of_job : String → List Recorded → List Recorded
of_job job es = filter (λ e. e.job == job) es

abbrev pub is_ok : RunStatus → Bool
is_ok ok_ = true
is_ok _ = false

abbrev pub failures : List Recorded → ℕ
failures [] = 0
failures (e ∷ es) = if is_ok e.outcome.status then failures es else suc (failures es)

-- The instant of the newest success.
abbrev pub last_success : List Recorded → Option ℕ
last_success [] = none
last_success (e ∷ es) = if is_ok e.outcome.status then some e.at else last_success es

-- What the calls of one job come to: no row when there are none.
abbrev pub summary : String → List Recorded → Option JobRun
summary job [] = none
summary job (e ∷ es) = some (record {
  job_name = job;
  last_run_at = e.at;
  last_status = e.outcome.status;
  last_duration_ms = e.outcome.duration_ms;
  last_error = e.outcome.error;
  last_success_at = last_success (e ∷ es);
  run_count = length (e ∷ es);
  fail_count = failures (e ∷ es);
  scope = e.outcome.scope;
})

-- A row after one more call.
abbrev pub bumped : String → RunOutcome → ℕ → Option JobRun → JobRun
bumped job o now none = first_run job o now
bumped job o now (some r) = next_run o now r

pub find_run-upsert_same :
    (job : String) (o : RunOutcome) (now : ℕ) (rs : List JobRun)
    → find_run job (upsert_run job o now rs) ≡ some (bumped job o now (find_run job rs))
find_run-upsert_same job o now [] = ground (arith, eq_iff job job)
find_run-upsert_same job o now (r ∷ rs) = elim (Bool-cases (r.job_name == job)) [
  | inl e ↦ simp e
  | inr e ↦ simp (e, find_run-upsert_same job o now rs)
]

find_run-upsert_other :
    (job k : String) (o : RunOutcome) (now : ℕ) (rs : List JobRun)
    → job == k ≡ false
    → find_run k (upsert_run job o now rs) ≡ find_run k rs
find_run-upsert_other job k o now [] h = simp h
find_run-upsert_other job k o now (r ∷ rs) h = elim (Bool-cases (r.job_name == job)) [
  | inl e ↦
      let other : r.job_name == k ≡ false =
        ground (arith, eq_iff r.job_name job, eq_iff r.job_name k, eq_iff job k, e, h) in
      simp (e, other)
  | inr e ↦ simp (e, find_run-upsert_other job k o now rs h)
]

when_ok_if : {A : Type 0} (s : RunStatus) (x y : A) → when_ok s x y ≡ (if is_ok s then x else y)
when_ok_if ok_ x y = refl
when_ok_if failed x y = refl
when_ok_if suspect x y = refl

counted : (s : RunStatus) (n : ℕ) → n + when_ok s 0 1 ≡ (if is_ok s then n else suc n)
counted ok_ n = omega arith
counted failed n = omega arith
counted suspect n = omega arith

bumped-summary :
    (job : String) (e : Recorded) (es : List Recorded)
    → some (bumped job e.outcome e.at (summary job es)) ≡ summary job (e ∷ es)
bumped-summary job e [] =
    simp (when_ok_if e.outcome.status (some e.at) none, when_ok_if {A = ℕ} e.outcome.status 0 1)
bumped-summary job e (f ∷ es) = simp (
  when_ok_if e.outcome.status (some e.at) (last_success (f ∷ es)),
  counted e.outcome.status (failures (f ∷ es)),
)

same_job :
    (e : Recorded) (job : String) (es : List Recorded)
    → e.job == job ≡ true
    → find_run job (replay es) ≡ summary job (of_job job es)
    → find_run job (replay (e ∷ es)) ≡ summary job (of_job job (e ∷ es))
unfolding record_run
same_job e job es h ih =
    let same : e.job ≡ job = (eq_iff e.job job).0 h in
    rw h (
      rw same (
        find_run-upsert_same job e.outcome e.at (replay es)
        ∙ rw ih (bumped-summary job e (of_job job es))))

-- The row that the table holds of a job, after any calls of `record` that the database has run, is
-- the summary of the calls of that job: its newest outcome, how many there were and how many of them
-- were no success, and the instant of the newest success, which a later failure leaves alone. There
-- is no row exactly when there was no call.
pub find_run-replay :
    (job : String) (es : List Recorded) → find_run job (replay es) ≡ summary job (of_job job es)
unfolding record_run
find_run-replay job [] = refl
find_run-replay job (e ∷ es) = elim (Bool-cases (e.job == job)) [
  | inl h ↦ same_job e job es h (find_run-replay job es)
  | inr h ↦
      simp (h, find_run-upsert_other e.job job e.outcome e.at (replay es) h, find_run-replay job es)
]
