-- ===== src/Workflow/Tat.antt =====
-- src/workflow/services/tat.service.ts: turnaround times, derived from the history of instances.
-- Hours are in hundredths, as `round` keeps them.
pub mod Aggregate
pub mod Laws
pub mod Times
mod Tests
use meru_core.Base.{
  ℕ, zero, suc, ◌+◌, ◌-◌, ◌*◌, ◌/◌, String, Option, none, some, List, [], ◌∷◌, ◌++◌, Bool, true,
  false, not, ◌&&◌, ◌||◌, ◌==◌, if◌then◌else◌, nat_eq, ltb, leb, filter, find?, map, length,
  is_empty, is_some, get_or, includes, Result, ok, err, from_option, ◌>>=◌,
}
use meru_core.Workflow.Types.{
  InstanceStatus, SlaConfig, Workflow, WorkflowState, HistoryEntry, WorkflowInstance, Db,
}
use meru_core.Workflow.Engine.Lookup.{
  Error, instance_not_found, Loaded, present, has_id, find_state,
}

pub record StageTat : Type 0 where
  pub stage : String
  pub entered_at : ℕ
  pub exited_at : Option ℕ
  pub hours : ℕ
  pub sla_hours : Option ℕ
  pub breached : Option Bool
  pub open_ : Bool

pub record InstanceTat : Type 0 where
  pub row : WorkflowInstance
  pub total_hours : ℕ
  pub stages : List StageTat

-- `Math.max(ms, 0) / 3_600_000`, rounded to two places
unfoldable pub hours_between : ℕ → ℕ → ℕ
hours_between from to = (to - from + 18000) / 36000

-- The loop over the history, from the cursor on.
unfoldable pub closed_stages : ℕ → List HistoryEntry → List StageTat
closed_stages cursor [] = []
closed_stages cursor (e ∷ es) =
    record {
      stage = e.from_state;
      entered_at = cursor;
      exited_at = some e.timestamp;
      hours = hours_between cursor e.timestamp;
      sla_hours = none;
      breached = none;
      open_ = false;
    }
    ∷ closed_stages e.timestamp es

-- Where the loop leaves the cursor.
abbrev pub last_cursor : ℕ → List HistoryEntry → ℕ
last_cursor cursor [] = cursor
last_cursor cursor (e ∷ es) = last_cursor e.timestamp es

abbrev pub is_finished : InstanceStatus → Bool
is_finished InstanceStatus.completed = true
is_finished InstanceStatus.cancelled = true
is_finished _ = false

abbrev state_sla : Option WorkflowState → Option ℕ
state_sla none = none
state_sla (some s) = s.config.sla_hours

-- `workflow?.slaConfig?.enabled ? currentState?.config?.slaHours ?? null : null`
unfoldable pub stage_sla : Option Workflow → Option WorkflowState → Option ℕ
stage_sla none state = none
stage_sla (some w) state = if w.sla_config.enabled then state_sla state else none

abbrev state_name : Option WorkflowState → String
state_name none = "current"
state_name (some s) = s.name

abbrev is_over : ℕ → Option ℕ → Option Bool
is_over hours none = none
is_over hours (some sla) = some (ltb (sla * 100) hours)

unfoldable pub open_stage : ℕ → Loaded → ℕ → StageTat
open_stage now l cursor =
    let entered = get_or l.row.state_entered_at cursor in
    let hours = hours_between entered now in
    let sla = stage_sla l.workflow l.current_state in
    record {
      stage = state_name l.current_state;
      entered_at = entered;
      exited_at = none;
      hours = hours;
      sla_hours = sla;
      breached = is_over hours sla;
      open_ = true;
    }

unfoldable pub compute : ℕ → Loaded → InstanceTat
compute now l =
    let cursor = last_cursor l.row.created_at l.row.history in
    let closed = closed_stages l.row.created_at l.row.history in
    record {
      row = l.row;
      total_hours =
          hours_between l.row.created_at
            (if is_finished l.row.status then get_or l.row.completed_at cursor else now);
      stages = if is_finished l.row.status then closed else closed ++ open_stage now l cursor ∷ [];
    }

-- The query joins the current state and nothing else.
unfoldable pub for_instance : ℕ → String → String → Db → Result Error InstanceTat
for_instance now tenant_id id db =
    from_option instance_not_found (find? (has_id id tenant_id) db.instances) >>= λ i. ok (
      compute now (record {
        row = i;
        workflow = none;
        current_state = find_state db.states i.current_state_id;
      }))

-- `sort((a, b) => a - b)`
abbrev pub insert : ℕ → List ℕ → List ℕ
insert a [] = a ∷ []
insert a (b ∷ bs) = let rest = insert a bs in if leb a b then a ∷ b ∷ bs else b ∷ rest

abbrev pub sort : List ℕ → List ℕ
sort [] = []
sort (a ∷ as_) = insert a (sort as_)

abbrev pub at_index : List ℕ → ℕ → ℕ
at_index [] i = 0
at_index (a ∷ as_) zero = a
at_index (a ∷ as_) (suc i) = at_index as_ i

-- Nearest rank: `Math.ceil((p / 100) * n)`, held between 1 and `n`.
abbrev pub rank : ℕ → ℕ → ℕ
rank p n =
    let r = (p * n + 99) / 100 in
    let least = if nat_eq r 0 then 1 else r in if leb least n then least else n

unfoldable pub percentile : List ℕ → ℕ → ℕ
percentile values p =
    if is_empty values then 0 else at_index (sort values) (rank p (length values) - 1)
