-- ===== src/Jobs/Catalogue.antt =====
-- src/jobs/job-catalogue.ts: the scheduled jobs, how often each runs, and which of them a tick
-- considers.
use meru_core.Base.{ℕ, String, Option, List, [], ◌∷◌, not, ◌==◌, leb, filter, find?}

pub data JobName : Type 0 where
  queue_drain scheduled_jobs recurring_tasks scheduled_notifications : JobName
  notification_dispatch sla_watchdog alert_rules messaging_sequences : JobName
  scheduled_reports daily_billing regulatory_radar audit_archive : JobName
  watchlist_ingest rescreening digest_emails : JobName

abbrev pub name_of : JobName → String
name_of queue_drain = "queue-drain"
name_of scheduled_jobs = "scheduled-jobs"
name_of recurring_tasks = "recurring-tasks"
name_of scheduled_notifications = "scheduled-notifications"
name_of notification_dispatch = "notification-dispatch"
name_of sla_watchdog = "sla-watchdog"
name_of alert_rules = "alert-rules"
name_of messaging_sequences = "messaging-sequences"
name_of scheduled_reports = "scheduled-reports"
name_of daily_billing = "daily-billing"
name_of regulatory_radar = "regulatory-radar"
name_of audit_archive = "audit-archive"
name_of watchlist_ingest = "watchlist-ingest"
name_of rescreening = "rescreening"
name_of digest_emails = "digest-emails"

-- `JOB_CADENCE_MINUTES`
abbrev pub cadence_minutes : JobName → ℕ
cadence_minutes sla_watchdog = 5
cadence_minutes alert_rules = 15
cadence_minutes messaging_sequences = 60
cadence_minutes scheduled_reports = 60
cadence_minutes daily_billing = 1440
cadence_minutes regulatory_radar = 1440
cadence_minutes audit_archive = 1440
cadence_minutes watchlist_ingest = 1440
cadence_minutes rescreening = 1440
cadence_minutes digest_emails = 1440
cadence_minutes _ = 1

-- `JOB_NAMES`
abbrev pub job_names : List JobName
job_names =
    queue_drain ∷ scheduled_jobs ∷ recurring_tasks ∷ scheduled_notifications ∷ notification_dispatch
    ∷ sla_watchdog ∷ alert_rules ∷ messaging_sequences ∷ scheduled_reports ∷ daily_billing
    ∷ regulatory_radar ∷ audit_archive ∷ watchlist_ingest ∷ rescreening ∷ digest_emails ∷ []

pub data TickScope : Type 0 where
  fast daily all_jobs : TickScope

unfoldable pub tick_scope : TickScope → List JobName
tick_scope fast = filter (λ j. leb (cadence_minutes j) 60) job_names
tick_scope daily = filter (λ j. not (leb (cadence_minutes j) 60)) job_names
tick_scope all_jobs = job_names

-- `JOB_NAMES.includes(job)`: the job of the name.
abbrev pub job_of : String → Option JobName
job_of s = find? (λ j. name_of j == s) job_names

abbrev pub tick_budget_ms : ℕ
tick_budget_ms = 45000

-- `JobScopeEvidence`; an absent count of the eligible tenants says that the check does not apply.
pub record Evidence : Type 0 where
  pub eligible : Option ℕ
  pub scanned : ℕ
