-- ===== src/Lib.antt =====
-- A model of the decision core of meru-core, a multi-tenant back end that runs the workflows, rules
-- and fees which a vertical's configuration pack declares.
--
-- The parts and how they interact. A caller reaches a record as far as `Access` allows. A pack's
-- workflow is compiled and stored by `Pack`; `Workflow` starts instances of it and moves them along
-- its transitions, whose conditions `Rules` evaluates and whose payments `Billing` has raised. `Jobs`
-- runs what is due in the background, among it the watchdog over late instances, the recurring `Tasks`,
-- the delivery of `Notifications` and the archiving of the `Audit` trail, `Queue` the jobs that a
-- request leaves behind. `Documents` says what a record still lacks, by the rules of the pack; `Crm` and
-- `Iam` refuse what a caller or its plan may not reach.
--
-- - Access: src/common/access.ts, src/iam/enums/platform-role.enum.ts and the store of
--   src/core/tenancy/tenant-context.ts. `scope_of` is `scopeOf`, `can_grant_role` is `canGrantRole`.
-- - Rules: src/rules/rule-evaluator.service.ts. `validate`, `matches`, `evaluate`, `augment`, and
--   `missing_comparison_vars`; a rule is a `Value`, the JSON of the source.
-- - Workflow: src/workflow/workflow.service.ts and workflow/entities. The tables are the record `Db`;
--   `create_workflow`, `start_workflow` and `transition` take it and return the one after them with a
--   result. `prepare` is the part of `transition` before anything is written, `advance` the columns
--   of its update, `commit` the transaction.
-- - Pack: src/workflow/services/pack-condition.ts (`compile_condition`, over a scanner in place of the
--   regular expressions) and src/workflow/services/pack-workflow.service.ts (`to_definition`,
--   `materialise`).
-- - Billing: src/billing/fee-schedule.service.ts (`split`, `expand`, `with_overrides`,
--   `set_overrides`) and
--   `resolveClientUserId` of src/billing/payments.service.ts, over the record `Ledger`.
-- - Workflow.Tat: src/workflow/services/tat.service.ts, over the same tables.
-- - Workflow.Watchdog: src/workflow/services/sla-watchdog.service.ts. `check_sla_violations` is the
--   sweep over the late instances, `process_escalation` what is done about one.
-- - Audit: src/audit. `log_event` appends to the chain of a tenant, `verify_chain` walks it,
--   `is_intact` is `verifyLogIntegrity`, and `sweep` archives what is past its retention.
-- - Tasks: src/tasks. The tables are the record `TaskDb`; `process_recurring_jobs` is the sweep over the
--   recurring jobs, `execute_recurring_job` one run.
-- - Crm: src/crm/crm-access.service.ts. `can_access` is `canAccess`, `apply_scope` the condition that
--   `applyScope` adds to a query.
-- - Documents: src/documents/document-checklist.service.ts. `for_entity` is `forEntity`; the pack's
--   document types are an argument, and an id that is empty is none. `owns_or_reaches` is
--   `assertOwnsEntity` of src/documents/document-access.service.ts.
-- - Iam: src/iam/entitlements. `can_activate` is the guard of a plan's modules, with its cache.
-- - Notifications: src/notifications/notification-dispatch.service.ts. `delivery` is `deliverOne` up to
--   its save, `dispatch_pending` the sweep over the rows that are due, `dispatch_one` the turn of one row with its `catch`, `retry_failed`
--   the requeueing. What the row holds when a turn throws is what is parked.
-- - Scoring: src/ai/engines/scoring.engine.ts, the weighted sum of a pack's rules.
-- - Queue: src/queue/queue.service.ts and src/queue/queue.processor.ts. The tables and the events
--   emitted are the record `Queue`; an operation of the service takes it and returns the one after it,
--   `drain_queue` is `drainQueue`. `Step` and `Reaches` are the operations in any order.
-- - Jobs: src/jobs and `runTenantBoundSweep` of src/core/tenancy/tenant-bound-sweep.ts. `run_named`
--   dispatches a scheduled job, `record_run` keeps its outcome, `tick` runs the jobs that are due. The
--   job scheduled-jobs is `process_scheduled_jobs` of Queue, queue-drain is `drain_queue`.
-- - Common: src/common/deep-merge.ts, src/common/csv.ts and src/common/paginated.ts.
-- - Base: values, lists, results, integers, and the runtime's parsers and coercions as the parameter
--   `Runtime`, for any choice of which the theorems hold.
--
-- Choices. Dates are milliseconds; an operation reads the clock once. A table holds its newest row
-- first. The ids that the database gives out are `uuid 0`, `uuid 1` and so on. `audit_works` says
-- whether an audit row can be written. A deadline is so many hours of 3600000 milliseconds ahead, the
-- server keeping UTC. JSON numbers are exact decimals, and money is whole minor units, not negative.
-- Turnaround hours are in hundredths and exact. A text of CSV is the list of its codes.
-- Properties of `Object.prototype` are not found under a key. All recursion is structural, so no fuel
-- is needed; a drain recurs on the jobs that it may still process. The queue's `Env` holds what it finds
-- around it, among that the ids that the database gives out, which theorems take to be distinct, and the
-- rows that another transaction has locked. An answer of a handler is the instant at which it comes and
-- its value; what comes at the very instant of a timer is taken in the order in which the timers were
-- set. Averages are left as a sum and a count. The hash, the printing of JSON, what a jsonb column gives
-- back and the calendar of `Audit` are its parameter `Tools`; `get_jobs` takes the order in which its query
-- returns rows, which is open where two were created at one instant; in `Tasks` a month later is a parameter, and a row is saved whole. Mail,
-- webhooks, the lookup of an address and the failure of a save are the `Transport` of `Notifications`.
--
-- Not modelled: the handlers of a transition's actions (what is handed to them is), logging, the
-- connection to the database and its failures other than of the audit row, of a task's type or
-- priority and of a notification's save, the inbox and the search of tasks, the export of an audit report, concurrent calls, the
-- controllers, and the packages and services that the program calls.
pub mod Access
pub mod Rules
pub mod Workflow
pub mod Pack
pub mod Billing
pub mod Common
pub mod Scoring
pub mod Jobs
pub mod Queue
pub mod Tasks
pub mod Audit
pub mod Crm
pub mod Documents
pub mod Iam
pub mod Notifications
mod Base
