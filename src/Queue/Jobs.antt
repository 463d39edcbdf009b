-- ===== src/Queue/Jobs.antt =====
-- The life of a job in src/queue/queue.service.ts: `createJob`, `createBulkJobs`, `getNextJob`,
-- `updateProgress`, `completeJob`, `failJob`, `getJob`, `getJobLogs`, `retryJob`, `cancelJob`,
-- `removeJob`, `resumePendingJobs` and `logJobEvent`. An operation reads the clock once.
use meru_core.Base.{
  ℕ, suc, ◌+◌, String, Option, none, some, List, [], ◌∷◌, ◌++◌, Bool, true, not, ◌&&◌, ◌==◌,
  if◌then◌else◌, ltb, leb, nat_eq, filter, find?, map, includes, Result, ok, err, ◌>>◌, guard,
  get_or, pos,
}
use meru_core.Queue.Types.{
  JobStatus, normal, JobType, Metadata, JobData, JobOptions, QueueJob, LogEvent, Queue, Emitted,
  job_created, QueueError, write_failed, same_job_status, priority_rank, type_name, positive,
  nonzero_or,
}

-- What the queue finds around it: the clock, the ids that the database gives out, the rows that the
-- database takes, the rows that another open transaction has locked, and the instant after `now` at
-- which cron-parser puts an expression's next run (`none` when it throws).
pub record Env : Type 0 where
  pub now : ℕ
  pub new_id : ℕ → String
  pub accepts : String → JobType → Bool
  pub locked : List String
  pub next_run : String → Option ℕ

-- `save` of a row that is there
abbrev pub put_job : QueueJob → List QueueJob → List QueueJob
put_job job [] = []
put_job job (j ∷ js) = let rest = put_job job js in if j.id == job.id then job ∷ rest else j ∷ rest

abbrev pub save : QueueJob → Queue → Queue
save job q = record q { jobs = put_job job q.jobs }

abbrev pub find_job : String → Queue → Option QueueJob
find_job id q = find? (λ j. j.id == id) q.jobs

abbrev pub emit : Emitted → Queue → Queue
emit e q = record q { events = q.events ++ e ∷ [] }

abbrev pub log_job_event : String → LogEvent → Option ℕ → Queue → Queue
log_job_event id event attempt q = record q {
  logs = q.logs ++ (record { job_id = id; event = event; attempt = attempt }) ∷ [];
}

-- `Date.now() + delay`, of a delay that is there and not 0
abbrev pub after_delay : ℕ → Option ℕ → Option ℕ
after_delay now none = none
after_delay now (some d) = if nat_eq d 0 then none else some (now + d)

abbrev pub tags_of : Option Metadata → List String
tags_of none = []
tags_of (some m) = get_or m.tags []

unfoldable pub new_job :
    Env → String → String → JobType → JobData → JobOptions → Option String → QueueJob
new_job env id tenant_id type job_data options user_id = record {
  id = id;
  tenant_id = tenant_id;
  type = type;
  status = if positive options.delay then JobStatus.scheduled else JobStatus.pending;
  priority = get_or options.priority normal;
  data_ = record job_data { tenant_id = some tenant_id; user_id = user_id };
  result = none;
  progress = none;
  attempts = 0;
  max_attempts = nonzero_or options.attempts 3;
  last_error = none;
  scheduled_for = after_delay env.now options.delay;
  processed_at = none;
  completed_at = none;
  failed_at = none;
  duration = pos 0;
  tags = tags_of job_data.metadata;
  options = record {
    timeout = options.timeout;
    backoff = options.backoff;
    remove_on_complete = options.remove_on_complete;
    remove_on_fail = options.remove_on_fail;
  };
  created_at = env.now;
}

abbrev pub insert_job : QueueJob → Queue → Queue
insert_job job q = record q { jobs = q.jobs ++ job ∷ []; given = suc q.given }

unfoldable pub create_job :
    Env → String → JobType → JobData → JobOptions → Option String → Queue → Result QueueError Queue
create_job env tenant_id type job_data options user_id q =
    let job = new_job env (env.new_id q.given) tenant_id type job_data options user_id in
    guard (env.accepts tenant_id type) write_failed
    >> ok (
        if positive options.delay
        then insert_job job q
        else emit (job_created job.id) (insert_job job q))

-- An entry of `createBulkJobs`.
pub record BulkEntry : Type 0 where
  pub type : JobType
  pub data_ : JobData
  pub options : Option JobOptions

-- `{}`
abbrev pub no_options : JobOptions
no_options = record {
  priority = none;
  delay = none;
  attempts = none;
  backoff = none;
  timeout = none;
  remove_on_complete = none;
  remove_on_fail = none;
}

-- The queue after an attempt whose exception is caught.
abbrev pub caught : Result QueueError Queue → Queue → Queue
caught (ok after) before = after
caught (err e) before = before

unfoldable pub create_bulk_jobs : Env → String → List BulkEntry → Option String → Queue → Queue
create_bulk_jobs env tenant_id [] user_id q = q
create_bulk_jobs env tenant_id (e ∷ es) user_id q =
    create_bulk_jobs env tenant_id es user_id
      (caught (create_job env tenant_id e.type e.data_ (get_or e.options no_options) user_id q) q)

-- The WHERE clause of `getNextJob`, and the rows that SKIP LOCKED leaves out.
abbrev pub of_tenant : Option String → QueueJob → Bool
of_tenant none j = true
of_tenant (some t) j = if t == "" then true else j.tenant_id == t

abbrev pub is_due : ℕ → Option ℕ → Bool
is_due now none = true
is_due now (some t) = leb t now

abbrev pub claimable : Env → List JobType → Option String → QueueJob → Bool
claimable env types tenant j =
    same_job_status j.status JobStatus.pending
    && of_tenant tenant j
    && includes (map type_name types) (type_name j.type)
    && is_due env.now j.scheduled_for
    && not (includes env.locked j.id)

-- `ORDER BY priority ASC, "createdAt" ASC`: `a` stands strictly before `b`.
abbrev pub before : QueueJob → QueueJob → Bool
before a b =
    if nat_eq (priority_rank a.priority) (priority_rank b.priority)
    then ltb a.created_at b.created_at
    else ltb (priority_rank a.priority) (priority_rank b.priority)

-- The first row of the order, an earlier one of the table where two rows tie.
abbrev pub earlier_of : QueueJob → Option QueueJob → QueueJob
earlier_of j none = j
earlier_of j (some k) = if before k j then k else j

abbrev pub first_of : List QueueJob → Option QueueJob
first_of [] = none
first_of (j ∷ js) = some (earlier_of j (first_of js))

abbrev pub claim : Env → QueueJob → QueueJob
claim env j = record j {
  status = JobStatus.processing;
  processed_at = some env.now;
  attempts = suc j.attempts;
}

abbrev pub take_job : Env → Option QueueJob → Queue → Option QueueJob × Queue
take_job env none q = (none, q)
take_job env (some j) q =
    let claimed = claim env j in
    (some claimed, log_job_event j.id LogEvent.started (some claimed.attempts) (save claimed q))

unfoldable pub get_next_job : Env → List JobType → Option String → Queue → Option QueueJob × Queue
get_next_job env types tenant q =
    take_job env (first_of (filter (claimable env types tenant) q.jobs)) q
