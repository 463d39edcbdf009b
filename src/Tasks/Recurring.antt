-- ===== src/Tasks/Recurring.antt =====
-- The recurring jobs of src/tasks/task.service.ts: `createRecurringJob`, `listRecurringJobs`,
-- `pauseRecurringJob`, `resumeRecurringJob`, `processRecurringJobs`, `executeRecurringJob` and
-- `calculateNextRun`. A day later is 86400000 ms later; a month later is a parameter.
use meru_core.Base.{
  ℕ, suc, ◌+◌, String, Option, none, some, List, [], ◌∷◌, ◌++◌, Bool, true, false, not, ◌==◌, ◌&&◌,
  if◌then◌else◌, ltb, leb, nat_eq, filter, find?, Result, ok, err, ◌>>=◌, from_option, ◌+++◌,
}
use meru_core.Jobs.Sweep.{SweepScope, run_tenant_bound_sweep}
use meru_core.Tasks.Types.{
  NewTask, TaskTemplate, RecurringJobStatus, active, paused, completed, error, success, failure,
  RecurringConfig, RecurringJob, TaskDb, TaskError, job_not_found, invalid_enum, priority_name,
  task_type_name, all_task_types, all_priorities,
}
use meru_core.Tasks.Work.{TaskEnv, create_task}

abbrev pub same_job_status : RecurringJobStatus → RecurringJobStatus → Bool
same_job_status active active = true
same_job_status paused paused = true
same_job_status completed completed = true
same_job_status error error = true
same_job_status _ _ = false

-- `startDate && startDate > now ? startDate : now`
abbrev pub base_date : ℕ → Option ℕ → ℕ
base_date now none = now
base_date now (some d) = if ltb now d then d else now

unfoldable pub calculate_next_run : (ℕ → ℕ) → ℕ → String → Option ℕ → ℕ
calculate_next_run month_after now schedule start =
    let base = base_date now start in
    if schedule == "weekly"
    then base + 604800000
    else if schedule == "monthly"
    then month_after base
    else base + 86400000

pub record NewRecurringJob : Type 0 where
  pub name : String
  pub schedule : String
  pub task_template : TaskTemplate
  pub start_date : Option ℕ
  pub end_date : Option ℕ
  pub config : RecurringConfig

unfoldable pub create_recurring_job : TaskEnv → (ℕ → ℕ) → String → NewRecurringJob → TaskDb → TaskDb
create_recurring_job env month_after tenant_id dto db = record db {
  jobs =
      (record {
        id = env.new_id db.given;
        tenant_id = tenant_id;
        name = dto.name;
        schedule = dto.schedule;
        task_template = dto.task_template;
        status = active;
        last_run_at = none;
        next_run_at = some (calculate_next_run month_after env.now dto.schedule dto.start_date);
        run_count = 0;
        start_date = dto.start_date;
        end_date = dto.end_date;
        run_history = [];
        config = dto.config;
      })
      ∷ db.jobs;
  given = suc db.given;
}

abbrev pub status_is : Option RecurringJobStatus → RecurringJobStatus → Bool
status_is none s = true
status_is (some t) s = same_job_status s t

unfoldable pub list_recurring_jobs : String → Option RecurringJobStatus → TaskDb → List RecurringJob
list_recurring_jobs tenant_id status db =
    filter (λ j. j.tenant_id == tenant_id && status_is status j.status) db.jobs

abbrev pub put_recurring : RecurringJob → List RecurringJob → List RecurringJob
put_recurring j [] = []
put_recurring j (k ∷ ks) =
    let rest = put_recurring j ks in if k.id == j.id then j ∷ rest else k ∷ rest

abbrev pub save_job : RecurringJob → TaskDb → TaskDb
save_job j db = record db { jobs = put_recurring j db.jobs }

abbrev pub find_recurring : String → String → TaskDb → Result TaskError RecurringJob
find_recurring id tenant_id db =
    from_option job_not_found (find? (λ j. j.id == id && j.tenant_id == tenant_id) db.jobs)

unfoldable pub pause_recurring_job : String → String → TaskDb → Result TaskError TaskDb
pause_recurring_job id tenant_id db =
    find_recurring id tenant_id db >>= λ j. ok (save_job (record j { status = paused }) db)

unfoldable pub resume_recurring_job :
    TaskEnv → (ℕ → ℕ) → String → String → TaskDb → Result TaskError TaskDb
resume_recurring_job env month_after id tenant_id db = find_recurring id tenant_id db >>= λ j. ok (
    save_job
      (record j {
        status = active;
        next_run_at = some (calculate_next_run month_after env.now j.schedule none);
      })
      db)

-- A text that is to be a member of an enumeration.
abbrev pub enum_member : {A : Type 0} → (A → String) → List A → String → Result TaskError A
enum_member name all_ s = from_option (invalid_enum s) (find? (λ a. name a == s) all_)

abbrev pub task_of : TaskTemplate → Result TaskError NewTask
task_of t = enum_member task_type_name all_task_types t.type >>= λ type.
    enum_member priority_name all_priorities t.priority >>= λ priority. ok (record {
      title = t.title;
      description = some t.description;
      type = some type;
      priority = some priority;
      assigned_to = t.assigned_to;
      assigned_by = "system";
      due_date = none;
      entity_id = none;
      config = some t.config;
    })

-- `maxRuns && runCount >= maxRuns`
abbrev pub is_spent : Option ℕ → ℕ → Bool
is_spent none runs = false
is_spent (some n) runs = not (nat_eq n 0) && leb n runs

abbrev pub executed_job : TaskEnv → (ℕ → ℕ) → String → RecurringJob → RecurringJob
executed_job env month_after task_id j = record j {
  run_count = suc j.run_count;
  last_run_at = some env.now;
  next_run_at = some (calculate_next_run month_after env.now j.schedule none);
  run_history = j.run_history ++ success env.now task_id ∷ [];
}

abbrev pub failed_job : TaskEnv → String → RecurringJob → RecurringJob
failed_job env message j = record j {
  run_history = j.run_history ++ failure env.now message ∷ [];
  status = if j.config.retry_on_error then error else j.status;
}

abbrev pub error_message : TaskError → String
error_message (invalid_enum s) = "invalid input value for enum: \"" +++ s +++ "\""
error_message _ = "Not found"

abbrev pub create_from :
    TaskEnv → (ℕ → ℕ) → RecurringJob → Result TaskError NewTask → TaskDb → TaskDb × Option TaskError
create_from env month_after j (err e) db =
    (save_job (failed_job env (error_message e) j) db, some e)
create_from env month_after j (ok dto) db =
    let (task, after) = create_task env j.tenant_id dto db in
    (save_job (executed_job env month_after task.id j) after, none)

unfoldable pub execute_recurring_job :
    TaskEnv → (ℕ → ℕ) → RecurringJob → TaskDb → TaskDb × Option TaskError
execute_recurring_job env month_after j db =
    if is_spent j.config.max_runs j.run_count
    then (save_job (record j { status = completed }) db, none)
    else create_from env month_after j (task_of j.task_template) db

abbrev pub is_ripe : ℕ → Option ℕ → Bool
is_ripe now none = false
is_ripe now (some t) = ltb t now

abbrev pub is_runnable : ℕ → RecurringJob → Bool
is_runnable now j = same_job_status j.status active && is_ripe now j.next_run_at

unfoldable pub process_recurring_jobs : TaskEnv → (ℕ → ℕ) → TaskDb → SweepScope TaskError × TaskDb
process_recurring_jobs env month_after db =
    run_tenant_bound_sweep (λ j. j.tenant_id) (λ j. j.id) (execute_recurring_job env month_after)
      (filter (is_runnable env.now) db.jobs) db
