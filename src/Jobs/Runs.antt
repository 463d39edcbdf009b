-- ===== src/Jobs/Runs.antt =====
-- src/jobs/job-run.service.ts: `record`, `lastRunMap` and `status`, on the rows of `job_runs`, one
-- per job name.
pub mod History
use meru_core.Base.{
  ℕ, zero, suc, ◌+◌, ◌-◌, ◌*◌, ◌/◌, String, Option, none, some, List, [], ◌∷◌, ◌++◌, Bool, true,
  false, ◌==◌, if◌then◌else◌, ltb, find?, get_or, map, ℤ, pos, sub_ℕ, lt_ℤ, div_floor,
}
use meru_core.Jobs.Catalogue.{Evidence, JobName, name_of, cadence_minutes}

pub data RunStatus : Type 0 where
  ok_ failed suspect : RunStatus

pub record JobRun : Type 0 where
  pub job_name : String
  pub last_run_at : ℕ
  pub last_status : RunStatus
  pub last_duration_ms : ℤ
  pub last_error : Option String
  pub last_success_at : Option ℕ
  pub run_count : ℕ
  pub fail_count : ℕ
  pub scope : Option Evidence

pub record RunOutcome : Type 0 where
  pub status : RunStatus
  pub duration_ms : ℤ
  pub error : Option String
  pub scope : Option Evidence

-- `CASE WHEN status = 'ok' THEN … ELSE … END`
abbrev pub when_ok : {A : Type 0} → RunStatus → A → A → A
when_ok ok_ x y = x
when_ok _ x y = y

abbrev pub first_run : String → RunOutcome → ℕ → JobRun
first_run job o now = record {
  job_name = job;
  last_run_at = now;
  last_status = o.status;
  last_duration_ms = o.duration_ms;
  last_error = o.error;
  last_success_at = when_ok o.status (some now) none;
  run_count = 1;
  fail_count = when_ok o.status 0 1;
  scope = o.scope;
}

-- `DO UPDATE SET …`
abbrev pub next_run : RunOutcome → ℕ → JobRun → JobRun
next_run o now r = record {
  job_name = r.job_name;
  last_run_at = now;
  last_status = o.status;
  last_duration_ms = o.duration_ms;
  last_error = o.error;
  last_success_at = when_ok o.status (some now) r.last_success_at;
  run_count = suc r.run_count;
  fail_count = r.fail_count + when_ok o.status 0 1;
  scope = o.scope;
}

abbrev pub upsert_run : String → RunOutcome → ℕ → List JobRun → List JobRun
upsert_run job o now [] = first_run job o now ∷ []
upsert_run job o now (r ∷ rs) =
    let rest = upsert_run job o now rs in
    if r.job_name == job then next_run o now r ∷ rs else r ∷ rest

-- `works` says whether the statement can be run: what it throws is caught.
unfoldable pub record_run : Bool → String → RunOutcome → ℕ → List JobRun → List JobRun
record_run works job o now runs = if works then upsert_run job o now runs else runs

abbrev pub find_run : String → List JobRun → Option JobRun
find_run job runs = find? (λ r. r.job_name == job) runs

-- `map.get(job)` of `lastRunMap`
abbrev pub run_at : Option JobRun → Option ℕ
run_at none = none
run_at (some r) = some r.last_run_at

pub record JobStatusRow : Type 0 where
  pub job : JobName
  pub cadence : ℕ
  pub row : Option JobRun
  pub run_count : ℕ
  pub fail_count : ℕ
  pub overdue : Bool
  pub minutes_since_last_run : Option ℤ

abbrev pub minutes_since : ℕ → Option ℕ → Option ℤ
minutes_since now none = none
minutes_since now (some t) = some (div_floor (sub_ℕ now t) 60000)

abbrev pub is_overdue : ℕ → Option ℤ → Bool
is_overdue cadence none = true
is_overdue cadence (some minutes) = lt_ℤ (pos (cadence * 2)) minutes

abbrev pub runs_of : Option JobRun → ℕ
runs_of none = 0
runs_of (some r) = r.run_count

abbrev pub fails_of : Option JobRun → ℕ
fails_of none = 0
fails_of (some r) = r.fail_count

abbrev pub status_row : List JobRun → ℕ → JobName → JobStatusRow
status_row runs now job =
    let r = find_run (name_of job) runs in
    let minutes = minutes_since now (run_at r) in
    record {
      job = job;
      cadence = cadence_minutes job;
      row = r;
      run_count = runs_of r;
      fail_count = fails_of r;
      overdue = is_overdue (cadence_minutes job) minutes;
      minutes_since_last_run = minutes;
    }

-- `Object.entries(cadences)` being the jobs of the catalogue.
unfoldable pub status : List JobRun → ℕ → List JobName → List JobStatusRow
status runs now jobs = map (status_row runs now) jobs
