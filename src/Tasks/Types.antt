-- ===== src/Tasks/Types.antt =====
-- src/tasks/entities and the arguments of src/tasks/task.service.ts. A date is a count of milliseconds.
use meru_core.Base.{ℕ, String, Option, List, [], ◌∷◌, Bool, Fields}

pub data TaskStatus : Type 0 where
  todo in_progress under_review done_ cancelled blocked : TaskStatus

pub data TaskPriority : Type 0 where
  low medium high urgent : TaskPriority

pub data TaskType : Type 0 where
  approval review action notification reminder workflow recurring : TaskType

pub record Task : Type 0 where
  pub id : String
  pub tenant_id : String
  pub title : String
  pub description : Option String
  pub type : TaskType
  pub status : TaskStatus
  pub priority : TaskPriority
  pub assigned_to : String
  pub assigned_by : Option String
  pub due_date : Option ℕ
  pub entity_id : Option String
  pub config : Fields
  pub started_at : Option ℕ
  pub completed_at : Option ℕ
  pub completed_by : Option String
  pub created_at : ℕ

-- What `createTask` is handed.
pub record NewTask : Type 0 where
  pub title : String
  pub description : Option String
  pub type : Option TaskType
  pub priority : Option TaskPriority
  pub assigned_to : String
  pub assigned_by : String
  pub due_date : Option ℕ
  pub entity_id : Option String
  pub config : Option Fields

pub record TaskComment : Type 0 where
  pub task_id : String
  pub user_id : String
  pub content : String
  pub mentions : List String

-- `taskTemplate`, whose type and priority are texts
pub record TaskTemplate : Type 0 where
  pub title : String
  pub description : String
  pub type : String
  pub priority : String
  pub assigned_to : String
  pub config : Fields

pub data RecurringJobStatus : Type 0 where
  active paused completed error : RecurringJobStatus

-- An entry of `runHistory`: the task of a success, or the message of an error.
pub data Run : Type 0 where
  success : ℕ → String → Run
  failure : ℕ → String → Run

-- Of `config`, what the code reads.
pub record RecurringConfig : Type 0 where
  pub max_runs : Option ℕ
  pub retry_on_error : Bool

pub record RecurringJob : Type 0 where
  pub id : String
  pub tenant_id : String
  pub name : String
  pub schedule : String
  pub task_template : TaskTemplate
  pub status : RecurringJobStatus
  pub last_run_at : Option ℕ
  pub next_run_at : Option ℕ
  pub run_count : ℕ
  pub start_date : Option ℕ
  pub end_date : Option ℕ
  pub run_history : List Run
  pub config : RecurringConfig

-- The tables, the newest row first, and how many ids were given out.
pub record TaskDb : Type 0 where
  pub tasks : List Task
  pub comments : List TaskComment
  pub jobs : List RecurringJob
  pub given : ℕ

pub data TaskError : Type 0 where
  task_not_found job_not_found : TaskError
  -- the database refuses a value that is no member of an enumeration
  invalid_enum : String → TaskError

abbrev pub status_name : TaskStatus → String
status_name todo = "todo"
status_name in_progress = "in_progress"
status_name under_review = "under_review"
status_name done_ = "done"
status_name cancelled = "cancelled"
status_name blocked = "blocked"

abbrev pub priority_name : TaskPriority → String
priority_name low = "low"
priority_name medium = "medium"
priority_name high = "high"
priority_name urgent = "urgent"

abbrev pub task_type_name : TaskType → String
task_type_name approval = "approval"
task_type_name review = "review"
task_type_name action = "action"
task_type_name notification = "notification"
task_type_name reminder = "reminder"
task_type_name workflow = "workflow"
task_type_name recurring = "recurring"

abbrev pub all_statuses : List TaskStatus
all_statuses = todo ∷ in_progress ∷ under_review ∷ done_ ∷ cancelled ∷ blocked ∷ []

abbrev pub all_priorities : List TaskPriority
all_priorities = low ∷ medium ∷ high ∷ urgent ∷ []

abbrev pub all_task_types : List TaskType
all_task_types = approval ∷ review ∷ action ∷ notification ∷ reminder ∷ workflow ∷ recurring ∷ []
