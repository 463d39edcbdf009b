-- ===== src/Pack/Definition.antt =====
-- `toDefinition` of src/workflow/services/pack-workflow.service.ts: a pack's workflow as a
-- definition of the engine.
pub mod Laws
use meru_core.Base.{
  ℕ, String, Option, none, some, List, [], ◌∷◌, ◌++◌, Bool, false, not, ◌==◌, if◌then◌else◌, nat_eq,
  filter, map, any, is_empty, includes, get_or, Value, Runtime, ◌+++◌,
}
use meru_core.Workflow.Types.{
  StateType, TransitionType, WorkflowTrigger, SlaConfig, PackOrigin, StateConfig, Conditions,
  Permissions, Action,
}
use meru_core.Pack.Lexer.{trim}
use meru_core.Pack.Condition.{
  CompileResult, compiled, failed, Reason, not_an_object, invalid_json, unsupported_syntax,
  not_a_literal, compile_condition,
}

pub record PackTransition : Type 0 where
  pub to : String
  pub label : String
  pub condition : Option String

pub record PackStep : Type 0 where
  pub id : String
  pub name : String
  pub description : Option String
  pub type : String
  pub assigned_role : Option String
  pub requires_sign_off : Option Bool
  pub sla_hours : Option ℕ
  pub form_fields : Option (List Value)
  pub required_documents : Option (List String)
  pub api_action : Option Value
  pub transitions : Option (List PackTransition)

pub record PackWorkflow : Type 0 where
  pub id : String
  pub name : String
  pub description : Option String
  pub entity_type : String
  pub steps : List PackStep

pub record StateDef : Type 0 where
  pub name : String
  pub type : StateType
  pub description : Option String
  pub config : StateConfig

pub record TransitionDef : Type 0 where
  pub name : String
  pub from : String
  pub to : String
  pub type : TransitionType
  pub conditions : Conditions
  pub actions : List Action
  pub permissions : Permissions

pub record WorkflowDefinition : Type 0 where
  pub name : String
  pub description : Option String
  pub entity_type : String
  pub states : List StateDef
  pub transitions : List TransitionDef
  pub trigger : WorkflowTrigger
  pub pack : Option PackOrigin
  pub sla_config : SlaConfig

-- An entry of `unevaluableConditions`.
pub record Unevaluable : Type 0 where
  pub pack_workflow_id : String
  pub from : String
  pub to : String
  pub reason : Reason

-- The message of a refusal; what the JSON parser adds to its own is not kept.
abbrev pub reason_text : Reason → String
reason_text not_an_object = "JSON condition must be an object"
reason_text invalid_json = "invalid JSON"
reason_text unsupported_syntax = "unsupported condition syntax"
reason_text (not_a_literal s) = "not a literal: " +++ s

abbrev pub outgoing : PackStep → List PackTransition
outgoing step = get_or step.transitions []

-- The ids of the steps with an outgoing transition.
unfoldable pub has_outgoing : List PackStep → List String
has_outgoing steps = map (λ s. s.id) (filter (λ s. not (is_empty (outgoing s))) steps)

unfoldable pub state_def : StateType → PackStep → StateDef
state_def type step = record {
  name = step.id;
  type = type;
  description = some (get_or step.description step.name);
  config = record {
    label = some step.name;
    step_type = some step.type;
    assigned_role = step.assigned_role;
    sla_hours = step.sla_hours;
    form_fields = get_or step.form_fields [];
    required_documents = get_or step.required_documents [];
    api_action = step.api_action;
  };
}

abbrev pub later_type : List String → PackStep → StateType
later_type with_outgoing step =
    if includes with_outgoing step.id then StateType.intermediate else StateType.end

-- The first step is the start.
unfoldable pub state_defs : List String → List PackStep → List StateDef
state_defs with_outgoing [] = []
state_defs with_outgoing (step ∷ steps) =
    state_def StateType.start step ∷ map (λ s. state_def (later_type with_outgoing s) s) steps

-- `t.condition && t.condition.trim()`
abbrev has_text : Option String → Bool
has_text none = false
has_text (some s) = not (trim s == "")

unfoldable pub conditions_of : Option String → CompileResult → Conditions
conditions_of condition (compiled logic source) = record {
  operator = "AND";
  rules = [];
  json_logic = if has_text condition then some logic else none;
  unevaluable = none;
  source = if has_text condition then some source else none;
}
conditions_of condition (failed reason) = record {
  operator = "AND";
  rules = [];
  json_logic = none;
  unevaluable = some (reason_text reason);
  source = condition;
}

-- `t.condition ? CONDITIONAL : MANUAL`
abbrev type_of : Option String → TransitionType
type_of none = TransitionType.manual
type_of (some s) = if s == "" then TransitionType.manual else TransitionType.conditional

-- `step.assignedRole ? [step.assignedRole] : []`
abbrev pub roles_of : Option String → List String
roles_of none = []
roles_of (some role) = if role == "" then [] else role ∷ []

unfoldable pub transition_def : Runtime → PackStep → PackTransition → TransitionDef
transition_def rt step t = record {
  name = t.label;
  from = step.id;
  to = t.to;
  type = type_of t.condition;
  conditions = conditions_of t.condition (compile_condition rt t.condition);
  actions = [];
  permissions = record {
    roles = roles_of step.assigned_role;
    users = [];
    requires_sign_off = get_or step.requires_sign_off false;
  };
}

abbrev pub report_of : String → PackStep → PackTransition → CompileResult → List Unevaluable
report_of pack_id step t (compiled logic source) = []
report_of pack_id step t (failed reason) =
    record { pack_workflow_id = pack_id; from = step.id; to = t.to; reason = reason } ∷ []

-- The inner loop, over one step's transitions, and the outer one.
unfoldable pub step_defs : Runtime → PackStep → List PackTransition → List TransitionDef
step_defs rt step [] = []
step_defs rt step (t ∷ ts) = transition_def rt step t ∷ step_defs rt step ts

unfoldable pub transition_defs : Runtime → List PackStep → List TransitionDef
transition_defs rt [] = []
transition_defs rt (step ∷ steps) = step_defs rt step (outgoing step) ++ transition_defs rt steps

unfoldable pub step_report : Runtime → String → PackStep → List PackTransition → List Unevaluable
step_report rt pack_id step [] = []
step_report rt pack_id step (t ∷ ts) =
    report_of pack_id step t (compile_condition rt t.condition) ++ step_report rt pack_id step ts

unfoldable pub report : Runtime → String → List PackStep → List Unevaluable
report rt pack_id [] = []
report rt pack_id (step ∷ steps) =
    step_report rt pack_id step (outgoing step) ++ report rt pack_id steps

-- `s.slaHours`, zero being falsy
abbrev has_sla : PackStep → Bool
has_sla step = not (nat_eq (get_or step.sla_hours 0) 0)

unfoldable pub to_definition :
    Runtime → Option String → Option String → PackWorkflow → WorkflowDefinition × List Unevaluable
to_definition rt code version def = (
  record {
    name = def.name;
    description = def.description;
    entity_type = def.entity_type;
    states = state_defs (has_outgoing def.steps) def.steps;
    transitions = transition_defs rt def.steps;
    trigger = WorkflowTrigger.manual;
    pack = some (record { code = code; version = version; workflow_id = def.id });
    sla_config = record { enabled = any has_sla def.steps };
  },
  report rt def.id def.steps,
)
