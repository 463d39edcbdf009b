-- ===== src/Workflow/Tat/Tests.antt =====
-- The turnaround of a case that was filed, reviewed and is still open.
use meru_core.Base.{
  ℕ, String, Option, none, some, List, [], ◌∷◌, ◌≡◌, ◌≢◌, refl, Bool, true, false, ok, done,
}
use meru_core.Workflow.Types.{InstanceStatus, HistoryEntry, WorkflowInstance, Db}
use meru_core.Workflow.Tat.{
  StageTat, InstanceTat, closed_stages, compute, for_instance, hours_between, open_stage, stage_sla,
  percentile,
}
use meru_core.Workflow.Tat.Aggregate.{Options}

abbrev entry : ℕ → String → String → HistoryEntry
entry at from to = record {
  timestamp = at;
  from_state = from;
  to_state = to;
  transition_id = "t";
  triggered_by = "u1";
  automated_by = none;
  signed_off = none;
  context = done;
}

abbrev past : List HistoryEntry
past = entry 3600000 "filed" "review" ∷ entry 9000000 "review" "decision" ∷ []

abbrev case_row : WorkflowInstance
case_row = record {
  id = "i1";
  tenant_id = "t1";
  vertical = none;
  workflow_id = "w1";
  entity_id = "e1";
  entity_type = "case";
  current_state_id = "s3";
  status = InstanceStatus.active;
  context = done;
  history = past;
  state_entered_at = some 9000000;
  sla_deadline = none;
  escalation_level = 0;
  completed_at = none;
  started_by = "u1";
  created_at = 0;
}

abbrev office : Db
office = record {
  workflows = [];
  states = [];
  transitions = [];
  instances = case_row ∷ [];
  users = [];
  entities = [];
  payments = [];
  audit = [];
  executed = [];
  issued = 0;
}

abbrev stage_of : String → ℕ → Option ℕ → ℕ → Bool → StageTat
stage_of name entered exited hours is_open = record {
  stage = name;
  entered_at = entered;
  exited_at = exited;
  hours = hours;
  sla_hours = none;
  breached = none;
  open_ = is_open;
}

abbrev expected : InstanceTat
expected = record {
  row = case_row;
  total_hours = 350;
  stages =
      stage_of "filed" 0 (some 3600000) 100 false
      ∷ stage_of "review" 3600000 (some 9000000) 150 false
      ∷ stage_of "current" 9000000 none 100 true
      ∷ [];
}

for_instance_test : for_instance 12600000 "t1" "i1" office ≡ ok expected
unfolding for_instance
for_instance_test = unfold compute closed_stages open_stage stage_sla hours_between in refl

abbrev any_options : Options
any_options = record { workflow_id = none; since = none; limit = none }

abbrev times : List ℕ
times = 30 ∷ 10 ∷ 20 ∷ []

median_test : percentile times 50 ≡ 20
unfolding percentile
median_test = refl

times_ne : times ≢ []
times_ne e = cc
