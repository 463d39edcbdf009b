-- ===== src/Workflow/Engine/Transition.antt =====
-- `transition` of src/workflow/workflow.service.ts: the gates in their order, the audit entry of an
-- automated transition before the change, the change, and the audit entry of a human one after it.
use meru_core.Base.{
  String, Option, none, some, List, [], ◌∷◌, ◌++◌, Bool, true, false, ◌==◌, if◌then◌else◌, map,
  get_or, ◌+++◌, Fields, done, spread, Result, ok, err, ◌>>=◌, ◌>>◌, guard, from_option,
}
use meru_core.Access.{system_actor}
use meru_core.Workflow.Types.{
  InstanceStatus, StateType, Workflow, WorkflowState, WorkflowTransition, WorkflowInstance,
  HistoryEntry, SignOff, AuditEntry, Db,
}
use meru_core.Workflow.Permissions.{check_permissions}
use meru_core.Workflow.Engine.Lookup.{
  Error, instance_not_active, insufficient_permissions, audit_failed, type_error, Env, Loaded,
  same_status, find_state, find_instance,
}
use meru_core.Workflow.Engine.Gates.{TransitionRequest, choose_transition, sign_off, check_arrears}
use meru_core.Workflow.Engine.Start.{sla_deadline}

-- What the gates have established before anything is written.
pub record Prepared : Type 0 where
  pub row : WorkflowInstance
  pub workflow : Option Workflow
  pub old_state : WorkflowState
  pub new_state : WorkflowState
  pub transition : WorkflowTransition
  pub signer : Option SignOff

unfoldable pub prepare : Env → TransitionRequest → Db → Result Error Prepared
prepare env req db = do
  loaded ← find_instance req.instance_id req.tenant_id db
  guard (same_status loaded.row.status InstanceStatus.active) instance_not_active
  t ← choose_transition env req.transition_id loaded.row db
  guard (check_permissions t.permissions req.user_id req.user_roles) insufficient_permissions
  signer ← sign_off req loaded.row t.permissions db
  old ← from_option type_error loaded.current_state
  check_arrears env loaded.row old db
  new ← from_option type_error (find_state db.states t.to_state_id)
  ok (record {
    row = loaded.row;
    workflow = loaded.workflow;
    old_state = old;
    new_state = new;
    transition = t;
    signer = signer;
  })

abbrev pub is_end : StateType → Bool
is_end StateType.end = true
is_end _ = false

triggered_by : Option String → String → String
triggered_by none user_id = user_id
triggered_by (some job) user_id = system_actor.id

unfoldable pub new_entry : Env → TransitionRequest → Prepared → Fields → HistoryEntry
unfolding triggered_by
new_entry env req p context = record {
  timestamp = env.now;
  from_state = p.old_state.name;
  to_state = p.new_state.name;
  transition_id = p.transition.id;
  triggered_by = triggered_by req.automated req.user_id;
  automated_by = req.automated;
  signed_off = p.signer;
  context = context;
}

-- The columns that the update writes.
unfoldable pub advance :
    Env → TransitionRequest → Prepared → Workflow → WorkflowInstance → WorkflowInstance
advance env req p w i =
    let context = spread p.row.context (get_or req.context done) in
    record i {
      current_state_id = p.new_state.id;
      status = if is_end p.new_state.type then InstanceStatus.completed else InstanceStatus.active;
      context = context;
      history = p.row.history ++ new_entry env req p context ∷ [];
      state_entered_at = some env.now;
      sla_deadline = sla_deadline env.now w.sla_config p.new_state.config;
      escalation_level = 0;
      completed_at = if is_end p.new_state.type then some env.now else none;
    }

-- `update(WorkflowInstance, id, …)`
abbrev pub update_where :
    String → (WorkflowInstance → WorkflowInstance) → List WorkflowInstance → List WorkflowInstance
update_where id f is = map (λ i. if i.id == id then f i else i) is

unfoldable pub commit : Env → TransitionRequest → Prepared → Workflow → Db → Db
commit env req p w db = record db {
  instances = update_where p.row.id (advance env req p w) db.instances;
  executed = db.executed ++ map (λ a. (a, p.row.id)) p.transition.actions;
}

-- `by` in parentheses, the two states, and the reason if there is one that is not empty.
abbrev pub automated_text : String → Option String → Prepared → String
automated_text job reason p =
    "Automated transition ("
    +++ job
    +++ ") from '"
    +++ p.old_state.name
    +++ "' to '"
    +++ p.new_state.name
    +++ "'"
    +++ because reason
  where
    because : Option String → String
    because none = ""
    because (some s) = if s == "" then "" else ": " +++ s

abbrev pub human_entry : TransitionRequest → Prepared → AuditEntry
human_entry req p = record {
  tenant_id = p.row.tenant_id;
  user_id = req.user_id;
  user_email = req.user_email;
  entity_id = p.row.id;
  description =
      "Transitioned from '" +++ p.old_state.name +++ "' to '" +++ p.new_state.name +++ "'";
  critical = false;
  before_state = some p.old_state.name;
  after_state = some p.new_state.name;
  automated = none;
  transition_id = p.transition.id;
  record_entity = some (p.row.entity_id, p.row.entity_type);
  signed_off = p.signer;
}

abbrev pub automated_entry : TransitionRequest → Prepared → String → AuditEntry
automated_entry req p job = record {
  tenant_id = p.row.tenant_id;
  user_id = req.user_id;
  user_email = none;
  entity_id = p.row.id;
  description = automated_text job req.automated_reason p;
  critical = true;
  before_state = none;
  after_state = none;
  automated = some (job, req.automated_reason);
  transition_id = p.transition.id;
  record_entity = none;
  signed_off = none;
}

abbrev pub entry_of : TransitionRequest → Prepared → Option String → AuditEntry
entry_of req p none = human_entry req p
entry_of req p (some job) = automated_entry req p job

unfoldable pub audit_entry : TransitionRequest → Prepared → AuditEntry
audit_entry req p = entry_of req p req.automated

abbrev pub append_audit : AuditEntry → Db → Db
append_audit a db = record db { audit = db.audit ++ a ∷ [] }

-- The entry of a human transition, whose failure is logged and passed over.
abbrev pub audit_after : Env → Option String → AuditEntry → Db → Db
audit_after env (some job) entry db = db
audit_after env none entry db = if env.audit_works then append_audit entry db else db

abbrev pub finish :
    Env → TransitionRequest → Prepared → Result Error Loaded → Db → Result Error Loaded × Db
finish env req p (err e) db = (err e, db)
finish env req p (ok loaded) db = (ok loaded, audit_after env req.automated (audit_entry req p) db)

abbrev pub perform :
    Env → TransitionRequest → Prepared → Option Workflow → Db → Result Error Loaded × Db
perform env req p none db = (err type_error, db)
perform env req p (some w) db =
    finish env req p (find_instance p.row.id req.tenant_id (commit env req p w db))
      (commit env req p w db)

-- An automated transition that cannot be recorded does not happen.
abbrev pub execute :
    Env → TransitionRequest → Prepared → Option String → Db → Result Error Loaded × Db
execute env req p none db = perform env req p p.workflow db
execute env req p (some job) db =
    if env.audit_works
    then perform env req p p.workflow (append_audit (audit_entry req p) db)
    else (err audit_failed, db)

abbrev pub proceed : Env → TransitionRequest → Result Error Prepared → Db → Result Error Loaded × Db
proceed env req (err e) db = (err e, db)
proceed env req (ok p) db = execute env req p req.automated db

unfoldable pub transition : Env → TransitionRequest → Db → Result Error Loaded × Db
transition env req db = proceed env req (prepare env req db) db
