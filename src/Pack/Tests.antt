-- ===== src/Pack/Tests.antt =====
-- A pack's workflow of two steps, one transition of which has a condition outside the grammar.
use meru_core.Base.{ℤ, none, some, [], ◌∷◌, ◌≡◌, refl, true, false, In, inl, ok, Fields, Runtime}
use meru_core.Workflow.Types.{WorkflowTrigger, Workflow, Db}
use meru_core.Workflow.Conditions.{evaluate_conditions}
use meru_core.Workflow.Engine.Lookup.{Env, get_workflow}
use meru_core.Pack.Condition.{compile_condition, failed, unsupported_syntax}
use meru_core.Pack.Definition.{
  PackTransition, PackStep, PackWorkflow, WorkflowDefinition, transition_def, to_definition,
  state_def, state_defs, transition_defs, step_defs, report, step_report, conditions_of,
  has_outgoing,
}
use meru_core.Pack.Definition.Laws.{to_definition_uncompiled}
use meru_core.Pack.Create.{
  create_workflow, materialise, materialise_all, materialise_one, find_materialised, workflow_row,
  state_rows, state_named, transition_rows, Report,
}
use meru_core.Pack.Create.Again.{materialise_again}

abbrev silent : Runtime
silent = record {
  apply_logic = λ r d. none;
  parse_json = λ s. none;
  parse_date = λ s. none;
  to_iso = λ t. "";
  greater = λ a b. false;
  text_includes = λ s v. false;
  trim_lower = λ s. s;
}

abbrev env : Env
env = record {
  runtime = silent;
  store = none;
  now = 0;
  uuid = λ n. "id";
  audit_works = true;
  plans = λ v. [];
}

abbrev vague : PackTransition
vague = record { to = "closed"; label = "Close"; condition = some "when ready" }

abbrev intake : PackStep
intake = record {
  id = "intake";
  name = "Intake";
  description = none;
  type = "form";
  assigned_role = some "staff";
  requires_sign_off = none;
  sla_hours = some 24;
  form_fields = none;
  required_documents = none;
  api_action = none;
  transitions = some (vague ∷ []);
}

abbrev closed : PackStep
closed = record intake { id = "closed"; name = "Closed"; sla_hours = none; transitions = none }

abbrev pack_workflow : PackWorkflow
pack_workflow = record {
  id = "visa";
  name = "Visa";
  description = none;
  entity_type = "case";
  steps = intake ∷ closed ∷ [];
}

-- A transition to a step that is not there.
abbrev astray : PackWorkflow
astray = record pack_workflow { steps = intake ∷ [] }

abbrev empty_db : Db
empty_db = record {
  workflows = [];
  states = [];
  transitions = [];
  instances = [];
  users = [];
  entities = [];
  payments = [];
  audit = [];
  executed = [];
  issued = 0;
}

vague_failed : compile_condition silent vague.condition ≡ failed unsupported_syntax
unfolding compile_condition
vague_failed = refl

to_definition_uncompiled_example :
    In
      (record {
        pack_workflow_id = "visa";
        from = "intake";
        to = "closed";
        reason = unsupported_syntax;
      })
      (to_definition silent none none pack_workflow).1
    × In
        (transition_def silent intake vague)
        (to_definition silent none none pack_workflow).0.transitions
    × ((rt : Runtime) (now : ℤ) (context : Fields)
        → evaluate_conditions rt now (transition_def silent intake vague).conditions context
          ≡ some false)
to_definition_uncompiled_example =
    to_definition_uncompiled silent none none pack_workflow intake vague unsupported_syntax
      (inl refl) (inl refl) vague_failed

abbrev astray_definition : WorkflowDefinition
astray_definition = record {
  name = "Visa";
  description = none;
  entity_type = "case";
  states = state_def (meru_core.Workflow.Types.StateType.start) intake ∷ [];
  transitions = transition_def silent intake vague ∷ [];
  trigger = WorkflowTrigger.manual;
  pack = none;
  sla_config = record { enabled = false };
}

abbrev first_report : Report
first_report = record {
  created = ("visa", "id") ∷ [];
  existing = [];
  unevaluable =
      record {
        pack_workflow_id = "visa";
        from = "intake";
        to = "closed";
        reason = unsupported_syntax;
      }
      ∷ [];
}

materialised_once :
    (materialise env "t1" none none (pack_workflow ∷ []) none empty_db).0 ≡ ok first_report
unfolding materialise
materialised_once =
    unfold materialise_all materialise_one find_materialised to_definition has_outgoing state_defs
      state_def transition_defs step_defs transition_def report step_report conditions_of
      compile_condition create_workflow workflow_row state_rows state_named transition_rows
      get_workflow in
    refl

materialise_again_example :
    (r : Report) × (materialise env "t1" none none
        (pack_workflow ∷ [])
        none
        (materialise env "t1" none none (pack_workflow ∷ []) none empty_db).1
      ≡ (ok r, (materialise env "t1" none none (pack_workflow ∷ []) none empty_db).1))
    × (r.created ≡ [])
materialise_again_example =
    materialise_again env "t1" none none (pack_workflow ∷ []) none empty_db first_report
      materialised_once
