-- ===== src/Queue/Types.antt =====
-- The rows and the enumerations of src/queue/entities/job.entity.ts and
-- src/queue/interfaces/job.interface.ts. A date is a count of milliseconds.
use meru_core.Base.{
  ℕ, String, Option, none, some, List, [], ◌∷◌, Bool, false, true, not, nat_eq, if◌then◌else◌,
  Value, truthy, ℤ,
}

pub data JobStatus : Type 0 where
  pending processing completed failed retrying cancelled scheduled : JobStatus

pub data JobPriority : Type 0 where
  critical high normal low background : JobPriority

pub data JobType : Type 0 where
  ai_analysis ai_embedding ai_summarize ai_classify : JobType
  document_process document_convert document_ocr document_virus_scan : JobType
  email_send sms_send push_send webhook_call : JobType
  data_export data_import data_sync data_cleanup : JobType
  report_generate report_distribute billing_invoice billing_reminder : JobType
  backup_create cache_clear index_rebuild audit_archive : JobType

pub record Metadata : Type 0 where
  pub source : Option String
  pub correlation_id : Option String
  pub tags : Option (List String)

pub record JobData : Type 0 where
  pub tenant_id : Option String
  pub user_id : Option String
  pub payload : Value
  pub metadata : Option Metadata

pub record JobResult : Type 0 where
  pub success : Bool
  pub data_ : Option Value
  pub error : Option String

pub record JobProgress : Type 0 where
  pub step : ℕ
  pub total_steps : ℕ
  pub percentage : ℕ
  pub message : Option String

pub data BackoffType : Type 0 where
  fixed exponential : BackoffType

pub record Backoff : Type 0 where
  pub type : BackoffType
  pub delay : ℕ

-- What the caller of `createJob` may ask for.
pub record JobOptions : Type 0 where
  pub priority : Option JobPriority
  pub delay : Option ℕ
  pub attempts : Option ℕ
  pub backoff : Option Backoff
  pub timeout : Option ℕ
  pub remove_on_complete : Option Value
  pub remove_on_fail : Option Value

-- The column `options`.
pub record StoredOptions : Type 0 where
  pub timeout : Option ℕ
  pub backoff : Option Backoff
  pub remove_on_complete : Option Value
  pub remove_on_fail : Option Value

pub record QueueJob : Type 0 where
  pub id : String
  pub tenant_id : String
  pub type : JobType
  pub status : JobStatus
  pub priority : JobPriority
  pub data_ : JobData
  pub result : Option JobResult
  pub progress : Option JobProgress
  pub attempts : ℕ
  pub max_attempts : ℕ
  pub last_error : Option String
  pub scheduled_for : Option ℕ
  pub processed_at : Option ℕ
  pub completed_at : Option ℕ
  pub failed_at : Option ℕ
  pub duration : ℤ
  pub tags : List String
  pub options : StoredOptions
  pub created_at : ℕ

pub data LogEvent : Type 0 where
  started progress completed failed retry : LogEvent

-- A row of `queue_job_logs`; of its details, the number of the attempt where it has one.
pub record QueueJobLog : Type 0 where
  pub job_id : String
  pub event : LogEvent
  pub attempt : Option ℕ

pub record QueueScheduledJob : Type 0 where
  pub id : String
  pub tenant_id : String
  pub name : String
  pub type : JobType
  pub data_ : JobData
  pub cron_expression : String
  pub next_run : ℕ
  pub last_run : Option ℕ
  pub is_active : Bool
  pub run_count : ℕ
  pub max_runs : Option ℕ
  pub end_date : Option ℕ

-- What the event emitter is told: the events of a job by its id, in the order of their emission.
pub data Emitted : Type 0 where
  job_created job_progress job_completed job_failed : String → Emitted

-- The tables of the queue, the events emitted so far, and how many ids were given out.
pub record Queue : Type 0 where
  pub jobs : List QueueJob
  pub logs : List QueueJobLog
  pub schedules : List QueueScheduledJob
  pub events : List Emitted
  pub given : ℕ

pub data QueueError : Type 0 where
  job_not_found scheduled_job_not_found not_retryable not_cancellable : QueueError
  invalid_cron : String → QueueError
  -- the database refuses a row
  write_failed : QueueError
  -- `null.getTime()`
  type_error : QueueError

abbrev pub same_job_status : JobStatus → JobStatus → Bool
same_job_status JobStatus.pending JobStatus.pending = true
same_job_status JobStatus.processing JobStatus.processing = true
same_job_status JobStatus.completed JobStatus.completed = true
same_job_status JobStatus.failed JobStatus.failed = true
same_job_status JobStatus.retrying JobStatus.retrying = true
same_job_status JobStatus.cancelled JobStatus.cancelled = true
same_job_status JobStatus.scheduled JobStatus.scheduled = true
same_job_status _ _ = false

-- The number of a priority, the column's order.
abbrev pub priority_rank : JobPriority → ℕ
priority_rank critical = 1
priority_rank high = 2
priority_rank normal = 3
priority_rank low = 4
priority_rank background = 5

abbrev pub type_name : JobType → String
type_name ai_analysis = "ai:analysis"
type_name ai_embedding = "ai:embedding"
type_name ai_summarize = "ai:summarize"
type_name ai_classify = "ai:classify"
type_name document_process = "document:process"
type_name document_convert = "document:convert"
type_name document_ocr = "document:ocr"
type_name document_virus_scan = "document:virus_scan"
type_name email_send = "email:send"
type_name sms_send = "sms:send"
type_name push_send = "push:send"
type_name webhook_call = "webhook:call"
type_name data_export = "data:export"
type_name data_import = "data:import"
type_name data_sync = "data:sync"
type_name data_cleanup = "data:cleanup"
type_name report_generate = "report:generate"
type_name report_distribute = "report:distribute"
type_name billing_invoice = "billing:invoice"
type_name billing_reminder = "billing:reminder"
type_name backup_create = "backup:create"
type_name cache_clear = "cache:clear"
type_name index_rebuild = "index:rebuild"
type_name audit_archive = "audit:archive"

-- `Object.values(JobType)`
abbrev pub all_types : List JobType
all_types =
    ai_analysis ∷ ai_embedding ∷ ai_summarize ∷ ai_classify ∷ document_process ∷ document_convert
    ∷ document_ocr ∷ document_virus_scan ∷ email_send ∷ sms_send ∷ push_send ∷ webhook_call
    ∷ data_export ∷ data_import ∷ data_sync ∷ data_cleanup ∷ report_generate ∷ report_distribute
    ∷ billing_invoice ∷ billing_reminder ∷ backup_create ∷ cache_clear ∷ index_rebuild
    ∷ audit_archive ∷ []

-- `if (n)`, of a number that may be absent
abbrev pub positive : Option ℕ → Bool
positive none = false
positive (some n) = not (nat_eq n 0)

-- `n || d`
abbrev pub nonzero_or : Option ℕ → ℕ → ℕ
nonzero_or none d = d
nonzero_or (some n) d = if nat_eq n 0 then d else n

-- `if (v)`, of a value that may be absent
abbrev pub holds : Option Value → Bool
holds none = false
holds (some v) = truthy v
