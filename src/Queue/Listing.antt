-- ===== src/Queue/Listing.antt =====
-- `getJobs` and `getMetrics` of src/queue/queue.service.ts, of a page and a limit of at least 1.
pub mod Order
pub mod Paging
pub mod Totals
use meru_core.Base.{
  ℕ, zero, suc, ◌+◌, ◌-◌, ◌*◌, String, Option, none, some, List, [], ◌∷◌, ◌++◌, Bool, true, false,
  not, ◌&&◌, ◌||◌, ◌==◌, if◌then◌else◌, ltb, leb, nat_eq, filter, any, map, includes, length, ℤ,
  pos, ◌+ℤ◌, is_empty,
}
use meru_core.Queue.Types.{
  QueueJob, JobStatus, JobPriority, JobType, JobData, Queue, same_job_status, priority_rank,
  type_name,
}
use meru_core.Queue.Jobs.{of_tenant}

-- `T | T[]`
pub data OneOrMany (A : Type 0) : Type 0 where
  one : A → OneOrMany A
  many : List A → OneOrMany A

abbrev pub values : {A : Type 0} → OneOrMany A → List A
values (one a) = a ∷ []
values (many xs) = xs

pub record JobFilter : Type 0 where
  pub tenant_id : Option String
  pub status : Option (OneOrMany JobStatus)
  pub type : Option (OneOrMany JobType)
  pub user_id : Option String
  pub priority : Option JobPriority
  pub created_after : Option ℕ
  pub created_before : Option ℕ
  pub tags : Option (List String)

-- A condition that is added only when its value is there.
abbrev pub when_given : {A : Type 0} → Option A → (A → Bool) → Bool
when_given none p = true
when_given (some a) p = p a

-- A text or a list that is empty adds no condition.
abbrev pub when_text : Option String → (String → Bool) → Bool
when_text none p = true
when_text (some s) p = s == "" || p s

abbrev pub is_user : Option String → String → Bool
is_user none s = false
is_user (some u) s = u == s

abbrev pub in_statuses : OneOrMany JobStatus → JobStatus → Bool
in_statuses v s = any (same_job_status s) (values v)

abbrev pub in_types : OneOrMany JobType → JobType → Bool
in_types v t = includes (map type_name (values v)) (type_name t)

-- `tags && :tags`
abbrev pub overlaps : List String → List String → Bool
overlaps asked tags = is_empty asked || any (includes tags) asked

abbrev pub matches_filter : JobFilter → QueueJob → Bool
matches_filter f j =
    when_text f.tenant_id (λ t. j.tenant_id == t)
    && when_given f.status (λ v. in_statuses v j.status)
    && when_given f.type (λ v. in_types v j.type)
    && when_text f.user_id (is_user j.data_.user_id)
    && when_given f.priority (λ p. nat_eq (priority_rank j.priority) (priority_rank p))
    && when_given f.created_after (λ t. leb t j.created_at)
    && when_given f.created_before (λ t. leb j.created_at t)
    && when_given f.tags (λ asked. overlaps asked j.tags)

abbrev pub skip_rows : {A : Type 0} → ℕ → List A → List A
skip_rows zero xs = xs
skip_rows (suc n) [] = []
skip_rows (suc n) (x ∷ xs) = skip_rows n xs

abbrev pub take_rows : {A : Type 0} → ℕ → List A → List A
take_rows zero xs = []
take_rows (suc n) [] = []
take_rows (suc n) (x ∷ xs) = x ∷ take_rows n xs

pub record JobPage : Type 0 where
  pub jobs : List QueueJob
  pub total : ℕ

-- The rows stand in the order in which this query of the database returns them.
unfoldable pub get_jobs : (List QueueJob → List QueueJob) → JobFilter → ℕ → ℕ → Queue → JobPage
get_jobs ordered f page limit q =
    let rows = ordered (filter (matches_filter f) q.jobs) in
    record {
      jobs = take_rows limit (skip_rows ((page - 1) * limit) rows);
      total = length (filter (matches_filter f) q.jobs);
    }

abbrev pub count : (QueueJob → Bool) → List QueueJob → ℕ
count p js = length (filter p js)

-- A row of the grouped query; the average of the durations by their sum and their number.
pub record TypeStats : Type 0 where
  pub type : String
  pub active : ℕ
  pub completed : ℕ
  pub failed : ℕ
  pub durations : ℤ
  pub averaged : ℕ

pub record QueueMetrics : Type 0 where
  pub active : ℕ
  pub waiting : ℕ
  pub completed : ℕ
  pub failed : ℕ
  pub delayed : ℕ
  pub paused : ℕ
  pub by_type : List TypeStats

abbrev pub has_status : JobStatus → QueueJob → Bool
has_status s j = same_job_status j.status s

abbrev pub is_past : ℕ → Option ℕ → Bool
is_past now none = false
is_past now (some t) = ltb t now

-- The sum of the durations.
abbrev pub total_duration : List QueueJob → ℤ
total_duration [] = pos 0
total_duration (j ∷ js) = j.duration +ℤ total_duration js

abbrev pub stats_of : String → List QueueJob → TypeStats
stats_of type js =
    let done = filter (has_status JobStatus.completed) js in
    record {
      type = type;
      active = count (has_status JobStatus.processing) js;
      completed = length done;
      failed = count (has_status JobStatus.failed) js;
      durations = total_duration done;
      averaged = length done;
    }

-- The names of the types, each once.
abbrev pub add_type : String → List String → List String
add_type t ts = if includes ts t then ts else t ∷ ts

abbrev pub types_in : List QueueJob → List String
types_in [] = []
types_in (j ∷ js) = add_type (type_name j.type) (types_in js)

abbrev pub of_type : String → QueueJob → Bool
of_type t j = type_name j.type == t

unfoldable pub get_metrics : ℕ → Option String → Queue → QueueMetrics
get_metrics now tenant q =
    let js = filter (of_tenant tenant) q.jobs in
    record {
      active = count (has_status JobStatus.processing) js;
      waiting = count (has_status JobStatus.pending) js;
      completed = count (has_status JobStatus.completed) js;
      failed = count (has_status JobStatus.failed) js;
      delayed = count (λ j. has_status JobStatus.scheduled j && is_past now j.scheduled_for) js;
      paused = 0;
      by_type = map (λ t. stats_of t (filter (of_type t) js)) (types_in js);
    }
