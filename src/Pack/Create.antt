-- ===== src/Pack/Create.antt =====
-- `createWorkflow` of src/workflow/workflow.service.ts, and `findMaterialised` and `materialise` of
-- src/workflow/services/pack-workflow.service.ts.
pub mod Laws
pub mod Again
pub mod Accepts
use meru_core.Base.{
  ℕ, suc, ◌+◌, String, Option, none, some, List, [], ◌∷◌, ◌++◌, Bool, true, false, ◌&&◌, ◌==◌,
  if◌then◌else◌, filter, find?, map, length, Result, ok, err, ◌>>=◌, from_option,
}
use meru_core.Workflow.Types.{
  WorkflowStatus, PackOrigin, Workflow, WorkflowState, WorkflowTransition, Db,
}
use meru_core.Workflow.Engine.Lookup.{Error, invalid_transition, Env, present, get_workflow}
use meru_core.Pack.Definition.{
  StateDef, TransitionDef, WorkflowDefinition, PackWorkflow, Unevaluable, to_definition,
}

-- The rows of the states, their ids given out from `n` on.
unfoldable pub state_rows : Env → String → ℕ → List StateDef → List WorkflowState
state_rows env workflow_id n [] = []
state_rows env workflow_id n (d ∷ ds) =
    record {
      id = env.uuid n;
      workflow_id = workflow_id;
      name = d.name;
      type = d.type;
      description = d.description;
      config = d.config;
    }
    ∷ state_rows env workflow_id (suc n) ds

-- `stateMap.get(name)`: of two states of one name the later stands in the map.
unfoldable pub state_named : String → List WorkflowState → Option WorkflowState
state_named name [] = none
state_named name (s ∷ ss) = elim (state_named name ss) [
  | some found ↦ some found
  | none ↦ if s.name == name then some s else none
]

abbrev pub transition_row :
    Env → String → ℕ → TransitionDef → WorkflowState → WorkflowState → WorkflowTransition
transition_row env workflow_id n d from to = record {
  id = env.uuid n;
  workflow_id = workflow_id;
  from_state_id = from.id;
  to_state_id = to.id;
  name = d.name;
  type = d.type;
  conditions = d.conditions;
  actions = d.actions;
  permissions = d.permissions;
  is_active = true;
}

unfoldable pub transition_rows :
    Env
    → String
    → ℕ
    → List WorkflowState
    → List TransitionDef
    → Result Error (List WorkflowTransition)
transition_rows env workflow_id n states [] = ok []
transition_rows env workflow_id n states (d ∷ ds) =
    from_option (invalid_transition d.from d.to) (state_named d.from states) >>= λ from.
    from_option (invalid_transition d.from d.to) (state_named d.to states) >>= λ to.
    transition_rows env workflow_id (suc n) states ds >>= λ rest.
    ok (transition_row env workflow_id n d from to ∷ rest)

unfoldable pub workflow_row : Env → String → WorkflowDefinition → ℕ → Workflow
workflow_row env tenant_id d n = record {
  id = env.uuid n;
  tenant_id = tenant_id;
  name = d.name;
  description = d.description;
  entity_type = d.entity_type;
  status = WorkflowStatus.draft;
  trigger = d.trigger;
  pack = d.pack;
  sla_config = d.sla_config;
  version = 1;
}

abbrev pub commit_workflow :
    Env
    → Workflow
    → List WorkflowState
    → Result Error (List WorkflowTransition)
    → Db
    → Result Error Workflow × Db
commit_workflow env w states (err e) db = (err e, db)
commit_workflow env w states (ok transitions) db =
    let db' = record db {
      workflows = w ∷ db.workflows;
      states = states ++ db.states;
      transitions = transitions ++ db.transitions;
      issued = suc db.issued + (length states + length transitions);
    } in
    (get_workflow w.id w.tenant_id db', db')

-- One transaction: an invalid transition rolls all of it back.
unfoldable pub create_workflow : Env → String → WorkflowDefinition → Db → Result Error Workflow × Db
create_workflow env tenant_id d db =
    let w = workflow_row env tenant_id d db.issued in
    let states = state_rows env w.id (suc db.issued) d.states in
    commit_workflow env w states
      (transition_rows env w.id (suc db.issued + length states) states d.transitions) db

abbrev pub of_pack : String → Option PackOrigin → Bool
of_pack pack_id none = false
of_pack pack_id (some origin) = origin.workflow_id == pack_id

-- Of several, the newest; a version bump of the pack makes no second one.
unfoldable pub find_materialised : String → String → Db → Option Workflow
find_materialised tenant_id pack_id db =
    find? (λ w. w.tenant_id == tenant_id && of_pack pack_id w.pack) db.workflows

-- `update(workflow.id, { status: ACTIVE })`
unfoldable pub activate : String → Db → Db
activate id db = record db {
  workflows =
      map (λ w. if w.id == id then record w { status = WorkflowStatus.active } else w) db.workflows;
}

pub record Report : Type 0 where
  pub created : List (String × String)
  pub existing : List (String × String)
  pub unevaluable : List Unevaluable

abbrev pub add_created :
    String → Result Error Workflow × Db → List Unevaluable → Report → Result Error Report × Db
add_created pack_id (err e, db) more r = (err e, db)
add_created pack_id (ok w, db) more r = (
  ok (record r {
    created = r.created ++ (pack_id, w.id) ∷ [];
    unevaluable = r.unevaluable ++ more;
  }),
  activate w.id db,
)

abbrev pub materialise_as :
    Env
    → String
    → Option String
    → Option String
    → PackWorkflow
    → Report
    → Db
    → Option Workflow
    → Result Error Report × Db
materialise_as env tenant_id code version def r db (some found) =
    (ok (record r { existing = r.existing ++ (def.id, found.id) ∷ [] }), db)
materialise_as env tenant_id code version def r db none =
    let (definition, more) = to_definition env.runtime code version def in
    add_created def.id (create_workflow env tenant_id definition db) more r

-- One round of the loop of `materialise`.
unfoldable pub materialise_one :
    Env
    → String
    → Option String
    → Option String
    → PackWorkflow
    → Report
    → Db
    → Result Error Report × Db
materialise_one env tenant_id code version def r db =
    materialise_as env tenant_id code version def r db (find_materialised tenant_id def.id db)

abbrev pub materialise_next :
    (Report → Db → Result Error Report × Db) → Result Error Report × Db → Result Error Report × Db
materialise_next next (err e, db) = (err e, db)
materialise_next next (ok r, db) = next r db

unfoldable pub materialise_all :
    Env
    → String
    → Option String
    → Option String
    → List PackWorkflow
    → Report
    → Db
    → Result Error Report × Db
materialise_all env tenant_id code version [] r db = (ok r, db)
materialise_all env tenant_id code version (def ∷ defs) r db =
    materialise_next (materialise_all env tenant_id code version defs)
      (materialise_one env tenant_id code version def r db)

abbrev pub is_wanted : Option String → PackWorkflow → Bool
is_wanted none def = true
is_wanted (some id) def = def.id == id

unfoldable pub materialise :
    Env
    → String
    → Option String
    → Option String
    → List PackWorkflow
    → Option String
    → Db
    → Result Error Report × Db
unfolding materialise_all
materialise env tenant_id code version section only db =
    materialise_all env tenant_id code version (filter (is_wanted (present only)) section)
      (record { created = []; existing = []; unevaluable = [] }) db
