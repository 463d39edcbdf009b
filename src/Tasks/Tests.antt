-- ===== src/Tasks/Tests.antt =====
-- Two tasks of a tenant and a recurring job, to try the theorems on.
use meru_core.Base.{
  none, some, [], ◌∷◌, ◌≡◌, ◌≢◌, refl, sym, ap, ◌∙◌, true, eq_iff, arith, inl, inr, In, ◌⊎◌, String,
  ℕ, ◌≤◌, ◌+◌, ok, err, done, length, ◌&&◌, not,
}
use meru_core.Access.{Actor, client, has_tenant_wide_reach, is_god_context, is_tenant_staff}
use meru_core.Tasks.Types.{
  Task, TaskStatus, TaskPriority, TaskType, TaskDb, RecurringJob, RecurringJobStatus,
  task_not_found, invalid_enum,
}
use meru_core.Tasks.Work.{TaskEnv, ListOptions, list_tasks, complete_task, completed_task}
use meru_core.Tasks.Recurring.{execute_recurring_job, process_recurring_jobs, is_runnable}
use meru_core.Tasks.Listing.{list_tasks-IsReachable}
use meru_core.Tasks.Marking.{
  HasOneTaskEach, IsOutOfReach, IsWithinReach, rewritten, complete_task-Ending,
}
use meru_core.Tasks.Runs.{
  AllWithin, process_recurring_jobs-AllWithin, execute_recurring_job_refused,
}

abbrev desk : TaskEnv
desk = record { store = none; now = 1000; new_id = λ n. "new"; mentions = λ s. [] }

abbrev applicant : Actor
applicant = record { id = "u1"; roles = client ∷ []; email = none }

abbrev upload : Task
upload = record {
  id = "k1";
  tenant_id = "t1";
  title = "upload";
  description = none;
  type = TaskType.action;
  status = TaskStatus.todo;
  priority = TaskPriority.medium;
  assigned_to = "u1";
  assigned_by = none;
  due_date = some 2000;
  entity_id = none;
  config = done;
  started_at = none;
  completed_at = none;
  completed_by = none;
  created_at = 0;
}

abbrev other_upload : Task
other_upload = record upload { id = "k2"; assigned_to = "u2" }

-- A job whose template has a priority that is none.
abbrev mistyped : RecurringJob
mistyped = record {
  id = "r1";
  tenant_id = "t1";
  name = "weekly";
  schedule = "weekly";
  task_template = record {
    title = "check";
    description = "";
    type = "action";
    priority = "normal";
    assigned_to = "u1";
    config = done;
  };
  status = RecurringJobStatus.active;
  last_run_at = none;
  next_run_at = some 500;
  run_count = 1;
  start_date = none;
  end_date = none;
  run_history = [];
  config = record { max_runs = some 3; retry_on_error = true };
}

abbrev sound : RecurringJob
sound = record mistyped {
  id = "r2";
  task_template = record mistyped.task_template { priority = "high" };
  run_count = 2;
}

abbrev board : TaskDb
board = record {
  tasks = upload ∷ other_upload ∷ [];
  comments = [];
  jobs = mistyped ∷ sound ∷ [];
  given = 0;
}

abbrev everything : ListOptions
everything = record {
  status = none;
  assigned_to = some "u2";
  priority = none;
  type = none;
  entity_id = none;
  due_before = none;
  due_after = none;
  page = none;
  limit = some 500;
}

abbrev month : ℕ → ℕ
month t = t + 2592000000

ids_differ : ◌≢◌ {A = String} "k1" "k2"
ids_differ = ground (arith, eq_iff "k1" "k2")

board-HasOneTaskEach : HasOneTaskEach board
board-HasOneTaskEach a b (inl e) (inl f) h = e ∙ sym f
board-HasOneTaskEach a b (inl e) (inr (inl f)) h =
    absurd (ids_differ (ap (λ (x : Task). x.id) (sym e) ∙ h ∙ ap (λ (x : Task). x.id) f))
board-HasOneTaskEach a b (inr (inl e)) (inl f) h =
    absurd (ids_differ (ap (λ (x : Task). x.id) (sym f) ∙ sym h ∙ ap (λ (x : Task). x.id) e))
board-HasOneTaskEach a b (inr (inl e)) (inr (inl f)) h = e ∙ sym f
board-HasOneTaskEach a b (inl e) (inr (inr x)) h = absurd x
board-HasOneTaskEach a b (inr (inl e)) (inr (inr x)) h = absurd x
board-HasOneTaskEach a b (inr (inr x)) n h = absurd x

-- An applicant that asks for the tasks of another is shown its own.
own_tasks : (list_tasks desk "t1" everything applicant board).items ≡ upload ∷ []
unfolding list_tasks has_tenant_wide_reach is_god_context is_tenant_staff
own_tasks = refl

list_tasks-IsReachable_example :
    (length (list_tasks desk "t1" everything applicant board).items ≤ 200)
    × ((t : Task)
        → In t (list_tasks desk "t1" everything applicant board).items
        → In t board.tasks
          × (t.tenant_id ≡ "t1")
          × ((has_tenant_wide_reach none applicant ≡ true) ⊎ (t.assigned_to ≡ "u1")))
list_tasks-IsReachable_example = list_tasks-IsReachable desk "t1" everything applicant board

complete_task-Ending_example :
    ((complete_task desk "k1" "t1" applicant board ≡ err task_not_found)
      × IsOutOfReach desk "k1" "t1" applicant board)
    ⊎ ((t : Task) × IsWithinReach desk "k1" "t1" applicant board t
        × (complete_task desk "k1" "t1" applicant board
            ≡ ok (rewritten desk "k1" "t1" applicant board (completed_task 1000 "u1" t))))
complete_task-Ending_example =
    complete_task-Ending desk "k1" "t1" applicant board board-HasOneTaskEach

process_recurring_jobs-AllWithin_example : AllWithin (process_recurring_jobs desk month board).1
process_recurring_jobs-AllWithin_example =
    process_recurring_jobs-AllWithin desk month board (inr (omega arith), (inr (omega arith), tt))

execute_recurring_job_refused_example :
    ((execute_recurring_job desk month mistyped board).1 ≡ some (invalid_enum "normal"))
    × ((execute_recurring_job desk month mistyped board).0.tasks ≡ board.tasks)
    × ((k : RecurringJob) × In k (execute_recurring_job desk month mistyped board).0.jobs
        × (k.id ≡ "r1")
        × (k.run_count ≡ 1)
        × ((later : ℕ) → is_runnable later k ≡ (is_runnable later mistyped && not true)))
execute_recurring_job_refused_example =
    execute_recurring_job_refused desk month mistyped (invalid_enum "normal") board (inl refl) refl
      refl
