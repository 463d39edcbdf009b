-- ===== src/Workflow/Engine/Start.antt =====
-- `startWorkflow` of src/workflow/workflow.service.ts.
use meru_core.Base.{
  ℕ, suc, ◌+◌, ◌*◌, String, Option, none, some, List, [], ◌∷◌, Bool, true, false, ◌==◌,
  if◌then◌else◌, filter, find?, nat_eq, Fields, Result, ok, err, ◌>>=◌, ◌>>◌, guard, from_option,
}
use meru_core.Workflow.Types.{
  InstanceStatus, WorkflowStatus, StateType, SlaConfig, Workflow, StateConfig, WorkflowState,
  WorkflowInstance, Db,
}
use meru_core.Workflow.Engine.Lookup.{
  Error, workflow_not_active, no_start_state, Env, Loaded, get_workflow, find_instance,
}

-- The deadline of a state that is entered now; zero hours are none.
deadline_in : ℕ → Option ℕ → Option ℕ
deadline_in now none = none
deadline_in now (some hours) = if nat_eq hours 0 then none else some (now + hours * 3600000)

unfoldable pub sla_deadline : ℕ → SlaConfig → StateConfig → Option ℕ
unfolding deadline_in
sla_deadline now sla config = if sla.enabled then deadline_in now config.sla_hours else none

abbrev pub is_start : StateType → Bool
is_start StateType.start = true
is_start _ = false

abbrev pub is_active_workflow : WorkflowStatus → Bool
is_active_workflow WorkflowStatus.active = true
is_active_workflow _ = false

abbrev pub states_of : List WorkflowState → String → List WorkflowState
states_of states workflow_id = filter (λ s. s.workflow_id == workflow_id) states

-- The row that `startWorkflow` creates.
unfoldable pub new_instance :
    Env → Workflow → WorkflowState → String → String → String → Fields → ℕ → WorkflowInstance
new_instance env w s entity_id entity_type user_id context issued = record {
  id = env.uuid issued;
  tenant_id = w.tenant_id;
  vertical = none;
  workflow_id = w.id;
  entity_id = entity_id;
  entity_type = entity_type;
  current_state_id = s.id;
  status = InstanceStatus.active;
  context = context;
  history = [];
  state_entered_at = some env.now;
  sla_deadline = sla_deadline env.now w.sla_config s.config;
  escalation_level = 0;
  completed_at = none;
  started_by = user_id;
  created_at = env.now;
}

-- The checks of `startWorkflow`, and the workflow and state that it starts.
unfoldable pub startable : String → String → Db → Result Error (Workflow × WorkflowState)
startable workflow_id tenant_id db = do
  w ← get_workflow workflow_id tenant_id db
  guard (is_active_workflow w.status) workflow_not_active
  s ← from_option no_start_state (find? (λ s. is_start s.type) (states_of db.states w.id))
  ok (w, s)

abbrev pub start_from :
    Env
    → String
    → String
    → String
    → String
    → Fields
    → Result Error (Workflow × WorkflowState)
    → Db
    → Result Error Loaded × Db
start_from env entity_id entity_type tenant_id user_id context (err e) db = (err e, db)
start_from env entity_id entity_type tenant_id user_id context (ok (w, s)) db =
    let i = new_instance env w s entity_id entity_type user_id context db.issued in
    let db' = record db { instances = i ∷ db.instances; issued = suc db.issued } in
    (find_instance i.id tenant_id db', db')

unfoldable pub start_workflow :
    Env → String → String → String → String → String → Fields → Db → Result Error Loaded × Db
start_workflow env workflow_id entity_id entity_type tenant_id user_id context db =
    start_from env entity_id entity_type tenant_id user_id context
      (startable workflow_id tenant_id db) db
