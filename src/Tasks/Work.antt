-- ===== src/Tasks/Work.antt =====
-- The tasks of src/tasks/task.service.ts: `createTask`, `getTask`, `listTasks`, `updateTask`,
-- `startTask`, `completeTask`, `cancelTask`, `getTaskCounts`, `addComment`, `getCalendarEvents`.
use meru_core.Base.{
  ℕ, suc, ◌+◌, ◌-◌, ◌*◌, String, Option, none, some, List, [], ◌∷◌, Bool, true, false, ◌==◌, ◌||◌,
  ◌&&◌, if◌then◌else◌, ltb, leb, nat_eq, filter, find?, map, length, get_or, done, Result, ok,
  ◌>>=◌, ◌>>◌, guard, from_option,
}
use meru_core.Access.{Actor, TenantStore, has_tenant_wide_reach}
use meru_core.Queue.Listing.{skip_rows, take_rows}
use meru_core.Tasks.Types.{
  TaskStatus, todo, in_progress, done_, cancelled, TaskPriority, medium, TaskType, action, Task,
  NewTask, TaskDb, TaskError, task_not_found, status_name, priority_name, task_type_name,
  all_statuses,
}

-- What a call finds around it: the async-local store, the clock, the ids that the database gives out, and
-- the names that a comment mentions.
pub record TaskEnv : Type 0 where
  pub store : Option TenantStore
  pub now : ℕ
  pub new_id : ℕ → String
  pub mentions : String → List String

unfoldable pub new_task : TaskEnv → String → String → NewTask → Task
new_task env id tenant_id dto = record {
  id = id;
  tenant_id = tenant_id;
  title = dto.title;
  description = dto.description;
  type = get_or dto.type action;
  status = todo;
  priority = get_or dto.priority medium;
  assigned_to = dto.assigned_to;
  assigned_by = some dto.assigned_by;
  due_date = dto.due_date;
  entity_id = dto.entity_id;
  config = get_or dto.config done;
  started_at = none;
  completed_at = none;
  completed_by = none;
  created_at = env.now;
}

unfoldable pub create_task : TaskEnv → String → NewTask → TaskDb → Task × TaskDb
create_task env tenant_id dto db =
    let task = new_task env (env.new_id db.given) tenant_id dto in
    (task, record db { tasks = task ∷ db.tasks; given = suc db.given })

abbrev pub is_task : String → String → Task → Bool
is_task id tenant_id t = t.id == id && t.tenant_id == tenant_id

unfoldable pub find_task_or_throw : String → String → TaskDb → Result TaskError Task
find_task_or_throw id tenant_id db =
    from_option task_not_found (find? (is_task id tenant_id) db.tasks)

-- `assertOwnedByOrTenant`, as a test
abbrev pub may_reach : TaskEnv → Actor → Task → Bool
may_reach env actor t = has_tenant_wide_reach env.store actor || t.assigned_to == actor.id

unfoldable pub get_task : TaskEnv → String → String → Actor → TaskDb → Result TaskError Task
get_task env id tenant_id actor db =
    find_task_or_throw id tenant_id db >>= λ t. guard (may_reach env actor t) task_not_found >> ok t

pub record ListOptions : Type 0 where
  pub status : Option TaskStatus
  pub assigned_to : Option String
  pub priority : Option TaskPriority
  pub type : Option TaskType
  pub entity_id : Option String
  pub due_before : Option ℕ
  pub due_after : Option ℕ
  pub page : Option ℕ
  pub limit : Option ℕ

abbrev pub when_set : {A : Type 0} → Option A → (A → Bool) → Bool
when_set none p = true
when_set (some a) p = p a

abbrev pub when_named : Option String → (String → Bool) → Bool
when_named none p = true
when_named (some s) p = s == "" || p s

abbrev pub equals_text : Option String → String → Bool
equals_text none s = false
equals_text (some t) s = t == s

-- `Between(after, before)`, `LessThan(before)` or `MoreThanOrEqual(after)`
abbrev pub is_due_within : Option ℕ → Option ℕ → Option ℕ → Bool
is_due_within none none due = true
is_due_within (some after) (some before) none = false
is_due_within (some after) (some before) (some d) = leb after d && leb d before
is_due_within none (some before) none = false
is_due_within none (some before) (some d) = ltb d before
is_due_within (some after) none none = false
is_due_within (some after) none (some d) = leb after d

-- A caller without reach over the tenant asks for its own tasks, whatever it asks for.
abbrev pub is_assigned : TaskEnv → Actor → Option String → Task → Bool
is_assigned env actor wanted t =
    if has_tenant_wide_reach env.store actor
    then when_named wanted (λ a. t.assigned_to == a)
    else t.assigned_to == actor.id

abbrev pub is_listed : TaskEnv → String → ListOptions → Actor → Task → Bool
is_listed env tenant_id o actor t =
    t.tenant_id == tenant_id
    && when_set o.status (λ s. status_name t.status == status_name s)
    && is_assigned env actor o.assigned_to t
    && when_set o.priority (λ p. priority_name t.priority == priority_name p)
    && when_set o.type (λ k. task_type_name t.type == task_type_name k)
    && when_named o.entity_id (equals_text t.entity_id)
    && is_due_within o.due_after o.due_before t.due_date

-- `Math.max(1, Number(page) || 1)`
abbrev pub page_of : Option ℕ → ℕ
page_of none = 1
page_of (some n) = if nat_eq n 0 then 1 else n

-- `Math.min(200, Math.max(1, Number(limit) || 50))`
abbrev pub limit_within : Option ℕ → ℕ
limit_within none = 50
limit_within (some n) = if nat_eq n 0 then 50 else if leb n 200 then n else 200

pub record TaskPage : Type 0 where
  pub items : List Task
  pub total : ℕ
  pub page : ℕ
  pub limit : ℕ

-- The table has its newest row first.
unfoldable pub list_tasks : TaskEnv → String → ListOptions → Actor → TaskDb → TaskPage
list_tasks env tenant_id o actor db =
    let rows = filter (is_listed env tenant_id o actor) db.tasks in
    let page = page_of o.page in
    let limit = limit_within o.limit in
    record {
      items = take_rows limit (skip_rows ((page - 1) * limit) rows);
      total = length rows;
      page = page;
      limit = limit;
    }

-- `save` of a row that is there
abbrev pub put_task : Task → List Task → List Task
put_task t [] = []
put_task t (u ∷ us) = let rest = put_task t us in if u.id == t.id then t ∷ rest else u ∷ rest

unfoldable pub update_task : String → String → (Task → Task) → TaskDb → Result TaskError TaskDb
update_task id tenant_id updates db = find_task_or_throw id tenant_id db >>= λ t.
    ok (record db { tasks = put_task (updates t) db.tasks })

abbrev pub started_task : ℕ → Task → Task
started_task now t = record t { status = in_progress; started_at = some now }

abbrev pub completed_task : ℕ → String → Task → Task
completed_task now by t = record t {
  status = done_;
  completed_at = some now;
  completed_by = some by;
}

unfoldable pub start_task : TaskEnv → String → String → Actor → TaskDb → Result TaskError TaskDb
start_task env id tenant_id actor db =
    get_task env id tenant_id actor db >>= λ t. update_task id tenant_id (started_task env.now) db

unfoldable pub complete_task : TaskEnv → String → String → Actor → TaskDb → Result TaskError TaskDb
complete_task env id tenant_id actor db = get_task env id tenant_id actor db >>= λ t.
    update_task id tenant_id (completed_task env.now actor.id) db

unfoldable pub cancel_task : String → String → TaskDb → Result TaskError TaskDb
cancel_task id tenant_id db = update_task id tenant_id (λ t. record t { status = cancelled }) db

-- A row of the grouped query.
abbrev pub count_status : TaskStatus → List Task → ℕ
count_status s ts = length (filter (λ t. status_name t.status == status_name s) ts)

abbrev pub is_of_assignee : String → String → Task → Bool
is_of_assignee tenant_id user_id t = t.tenant_id == tenant_id && t.assigned_to == user_id

pub record TaskCounts : Type 0 where
  pub by_status : List (TaskStatus × ℕ)
  pub total : ℕ

abbrev pub sum_counts : List (TaskStatus × ℕ) → ℕ
sum_counts [] = 0
sum_counts ((s, n) ∷ cs) = n + sum_counts cs

unfoldable pub get_task_counts : String → String → TaskDb → TaskCounts
get_task_counts tenant_id user_id db =
    let ts = filter (is_of_assignee tenant_id user_id) db.tasks in
    let counts = map (λ s. (s, count_status s ts)) all_statuses in
    record { by_status = counts; total = sum_counts counts }

-- A comment on a task that the caller may reach.
unfoldable pub add_comment :
    TaskEnv → String → String → Actor → String → TaskDb → Result TaskError TaskDb
add_comment env task_id tenant_id actor content db =
    get_task env task_id tenant_id actor db >>= λ t. ok (record db {
      comments =
          (record {
            task_id = task_id;
            user_id = actor.id;
            content = content;
            mentions = env.mentions content;
          })
          ∷ db.comments;
    })

-- `scope: 'firm'` is for callers with reach over the tenant.
abbrev pub is_on_calendar : TaskEnv → String → String → Actor → ℕ → ℕ → Bool → Task → Bool
is_on_calendar env tenant_id user_id actor from to firm t =
    t.tenant_id == tenant_id
    && ((firm && has_tenant_wide_reach env.store actor) || t.assigned_to == user_id)
    && is_due_within (some from) (some to) t.due_date

abbrev pub insert_due : Task → List Task → List Task
insert_due t [] = t ∷ []
insert_due t (u ∷ us) =
    let rest = insert_due t us in
    if leb (get_or t.due_date 0) (get_or u.due_date 0) then t ∷ u ∷ us else u ∷ rest

abbrev pub by_due : List Task → List Task
by_due [] = []
by_due (t ∷ ts) = insert_due t (by_due ts)

unfoldable pub get_calendar_events :
    TaskEnv → String → String → Actor → ℕ → ℕ → Bool → TaskDb → List Task
get_calendar_events env tenant_id user_id actor from to firm db =
    by_due (filter (is_on_calendar env tenant_id user_id actor from to firm) db.tasks)
