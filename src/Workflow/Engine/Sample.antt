-- ===== src/Workflow/Engine/Sample.antt =====
-- A case of two steps, filed and then closed, to try the engine on.
use meru_core.Base.{none, some, [], ◌∷◌, true, false, Runtime, str, done, field}
use meru_core.Access.{firm_admin}
use meru_core.Workflow.Types.{
  InstanceStatus, WorkflowStatus, WorkflowTrigger, StateType, TransitionType, Workflow, StateConfig,
  WorkflowState, Conditions, WorkflowTransition, WorkflowInstance, Db,
}
use meru_core.Workflow.Engine.Lookup.{Env}
use meru_core.Workflow.Engine.Gates.{TransitionRequest}
use meru_core.Workflow.Engine.Transition.{Prepared}

abbrev pub silent : Runtime
silent = record {
  apply_logic = λ r d. none;
  parse_json = λ s. none;
  parse_date = λ s. none;
  to_iso = λ t. "";
  greater = λ a b. false;
  text_includes = λ s v. false;
  trim_lower = λ s. s;
}

abbrev pub plain : StateConfig
plain = record {
  label = none;
  step_type = none;
  assigned_role = none;
  sla_hours = some 48;
  form_fields = [];
  required_documents = [];
  api_action = none;
}

abbrev pub filed : WorkflowState
filed = record {
  id = "s1";
  workflow_id = "w1";
  name = "filed";
  type = StateType.start;
  description = none;
  config = plain;
}

abbrev pub closed : WorkflowState
closed = record {
  id = "s2";
  workflow_id = "w1";
  name = "closed";
  type = StateType.end;
  description = none;
  config = plain;
}

abbrev pub case_workflow : Workflow
case_workflow = record {
  id = "w1";
  tenant_id = "t1";
  name = "case";
  description = none;
  entity_type = "case";
  status = WorkflowStatus.active;
  trigger = WorkflowTrigger.manual;
  pack = none;
  sla_config = record { enabled = true };
  version = 1;
}

-- A condition that the pack's author never made evaluable.
abbrev pub never : Conditions
never = record {
  operator = "AND";
  rules = [];
  json_logic = none;
  unevaluable = some "unsupported condition syntax";
  source = some "when ready";
}

abbrev pub close_case : WorkflowTransition
close_case = record {
  id = "tr1";
  workflow_id = "w1";
  from_state_id = "s1";
  to_state_id = "s2";
  name = "close";
  type = TransitionType.conditional;
  conditions = never;
  actions = [];
  permissions = record { roles = []; users = []; requires_sign_off = false };
  is_active = true;
}

abbrev pub open_case : WorkflowInstance
open_case = record {
  id = "i1";
  tenant_id = "t1";
  vertical = none;
  workflow_id = "w1";
  entity_id = "e1";
  entity_type = "case";
  current_state_id = "s1";
  status = InstanceStatus.active;
  context = done;
  history = [];
  state_entered_at = some 0;
  sla_deadline = none;
  escalation_level = 0;
  completed_at = none;
  started_by = "u1";
  created_at = 0;
}

-- Another case of the tenant, suspended.
abbrev pub suspended_case : WorkflowInstance
suspended_case = record open_case { id = "i2"; status = InstanceStatus.suspended }

abbrev pub office : Db
office = record {
  workflows = case_workflow ∷ [];
  states = filed ∷ closed ∷ [];
  transitions = close_case ∷ [];
  instances = open_case ∷ suspended_case ∷ [];
  users = [];
  entities = [];
  payments = [];
  audit = [];
  executed = [];
  issued = 0;
}

abbrev pub env : Env
env = record {
  runtime = silent;
  store = none;
  now = 1000;
  uuid = λ n. "new";
  audit_works = true;
  plans = λ v. [];
}

abbrev pub close_request : TransitionRequest
close_request = record {
  instance_id = "i1";
  tenant_id = "t1";
  transition_id = some "tr1";
  user_id = "u1";
  user_email = none;
  user_roles = firm_admin ∷ [];
  automated = none;
  automated_reason = none;
  context = some (field "note" (str "all filed") done);
}

abbrev pub suspended_request : TransitionRequest
suspended_request = record close_request { instance_id = "i2" }

abbrev pub ready : Prepared
ready = record {
  row = open_case;
  workflow = some case_workflow;
  old_state = filed;
  new_state = closed;
  transition = close_case;
  signer = none;
}
