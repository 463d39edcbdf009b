-- ===== src/Workflow/Engine/Lookup.antt =====
-- What the engine reads: `getWorkflow`, `findInstanceOrThrow`, `ownedEntityIds`,
-- `assertInstanceOwnership`, `getInstance`, `listInstances` and the two lists of definitions.
-- Tables hold their newest row first, the order in which a list is returned.
use meru_core.Base.{
  ℕ, String, Option, none, some, List, Bool, true, false, not, ◌&&◌, ◌||◌, ◌==◌, if◌then◌else◌,
  filter, find?, map, includes, Result, ok, ◌>>=◌, ◌>>◌, guard, from_option, Runtime,
}
use meru_core.Access.{Actor, TenantStore, has_tenant_wide_reach}
use meru_core.Workflow.Types.{
  InstanceStatus, Workflow, WorkflowState, WorkflowInstance, Entity, PaymentPlan, Db,
}

-- The exceptions of the engine.
pub data Error : Type 0 where
  workflow_not_found instance_not_found : Error
  workflow_not_active no_start_state : Error
  invalid_transition : String → String → Error
  instance_not_active no_valid_transition insufficient_permissions sign_off_required : Error
  -- the count of the outstanding payments and their total
  payments_outstanding : ℕ → ℕ → Error
  audit_failed type_error : Error

-- What an operation finds around it: the runtime, the async-local store, the clock, the ids that the
-- database gives out, whether an audit row can be written, and the pack's payment plans.
pub record Env : Type 0 where
  pub runtime : Runtime
  pub store : Option TenantStore
  pub now : ℕ
  pub uuid : ℕ → String
  pub audit_works : Bool
  pub plans : Option String → List PaymentPlan

-- `if (text)`, on a text that may be absent
abbrev pub present : Option String → Option String
present none = none
present (some s) = if s == "" then none else some s

-- `column = value`, on a column that may be null
abbrev pub is_text : Option String → String → Bool
is_text none s = false
is_text (some t) s = t == s

unfoldable pub get_workflow : String → String → Db → Result Error Workflow
get_workflow id tenant_id db =
    from_option workflow_not_found
      (find? (λ w. w.id == id && w.tenant_id == tenant_id) db.workflows)

matches_type : Option String → String → Bool
matches_type none type = true
matches_type (some t) type = t == type

pub list_workflows : String → Option String → Db → List Workflow
unfolding matches_type
list_workflows tenant_id entity_type db =
    filter (λ w. w.tenant_id == tenant_id && matches_type (present entity_type) w.entity_type)
      db.workflows

-- An instance with its two joined rows.
pub record Loaded : Type 0 where
  pub row : WorkflowInstance
  pub workflow : Option Workflow
  pub current_state : Option WorkflowState

abbrev pub find_state : List WorkflowState → String → Option WorkflowState
find_state states id = find? (λ s. s.id == id) states

abbrev pub load : Db → WorkflowInstance → Loaded
load db i = record {
  row = i;
  workflow = find? (λ w. w.id == i.workflow_id) db.workflows;
  current_state = find_state db.states i.current_state_id;
}

abbrev pub has_id : String → String → WorkflowInstance → Bool
has_id id tenant_id i = i.id == id && i.tenant_id == tenant_id

unfoldable pub find_instance : String → String → Db → Result Error Loaded
find_instance id tenant_id db = do
  i ← from_option instance_not_found (find? (has_id id tenant_id) db.instances)
  ok (load db i)

owns_entity : Option String → Actor → Entity → Bool
owns_entity none actor e = is_text e.assigned_to actor.id
owns_entity (some email) actor e = is_text e.assigned_to actor.id || is_text e.subject_email email

actor_email : Runtime → Option String → Option String
actor_email rt none = none
actor_email rt (some email) = present (some (rt.trim_lower email))

pub owned_entity_ids : Env → String → Actor → Db → List String
unfolding owns_entity actor_email
owned_entity_ids env tenant_id actor db =
    map (λ e. e.id)
      (filter
        (λ e. e.tenant_id == tenant_id && owns_entity (actor_email env.runtime actor.email) actor e)
        db.entities)

-- `assertInstanceOwnership`, as a test
unfoldable pub owns_instance : Env → String → Actor → Db → WorkflowInstance → Bool
owns_instance env tenant_id actor db i =
    has_tenant_wide_reach env.store actor
    || i.started_by == actor.id
    || (not (i.entity_id == "") && includes (owned_entity_ids env tenant_id actor db) i.entity_id)

unfoldable pub get_instance : Env → String → String → Actor → Db → Result Error Loaded
get_instance env id tenant_id actor db = do
  instance' ← find_instance id tenant_id db
  guard (owns_instance env tenant_id actor db instance'.row) instance_not_found
  ok instance'

abbrev pub same_status : InstanceStatus → InstanceStatus → Bool
same_status InstanceStatus.active InstanceStatus.active = true
same_status InstanceStatus.completed InstanceStatus.completed = true
same_status InstanceStatus.cancelled InstanceStatus.cancelled = true
same_status InstanceStatus.suspended InstanceStatus.suspended = true
same_status InstanceStatus.error InstanceStatus.error = true
same_status _ _ = false

abbrev pub status_matches : Option InstanceStatus → InstanceStatus → Bool
status_matches none s = true
status_matches (some t) s = same_status t s

abbrev pub id_matches : Option String → String → Bool
id_matches none id = true
id_matches (some wanted) id = id == wanted

-- The filter that every branch of `listInstances` shares.
abbrev pub base_matches : String → Option InstanceStatus → Option String → WorkflowInstance → Bool
base_matches tenant_id status entity_id i =
    i.tenant_id == tenant_id
    && status_matches status i.status
    && id_matches (present entity_id) i.entity_id

-- The ids of the ownership branch: with a filter, that id alone, if it is the caller's.
unfoldable pub owned_for_filter : Option String → List String → List String
owned_for_filter none owned = owned
owned_for_filter (some wanted) owned = filter (λ id. id == wanted) owned

unfoldable pub list_instances :
    Env → String → Actor → Option InstanceStatus → Option String → Db → List WorkflowInstance
unfolding owned_for_filter
list_instances env tenant_id actor status entity_id db =
    let owned = owned_for_filter (present entity_id) (owned_entity_ids env tenant_id actor db) in
    if not (has_tenant_wide_reach env.store actor)
    then filter
        (λ i.
          base_matches tenant_id status entity_id i
          && (i.started_by == actor.id || includes owned i.entity_id))
        db.instances
    else filter (base_matches tenant_id status entity_id) db.instances
