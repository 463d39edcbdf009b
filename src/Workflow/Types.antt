-- ===== src/Workflow/Types.antt =====
-- The rows of src/workflow/entities, and the tables of other modules that a transition reads. A date
-- is a count of milliseconds, and a reference to a row is the row's id.
use meru_core.Base.{ℕ, String, Option, List, Bool, Value, Fields}

pub data InstanceStatus : Type 0 where
  active completed cancelled suspended error : InstanceStatus

pub data WorkflowStatus : Type 0 where
  active inactive draft archived : WorkflowStatus

pub data WorkflowTrigger : Type 0 where
  manual automatic scheduled event : WorkflowTrigger

pub data StateType : Type 0 where
  start intermediate end : StateType

pub data TransitionType : Type 0 where
  automatic manual conditional scheduled : TransitionType

-- `slaConfig`
pub record SlaConfig : Type 0 where
  pub enabled : Bool

-- `triggerConfig.pack`
pub record PackOrigin : Type 0 where
  pub code : Option String
  pub version : Option String
  pub workflow_id : String

pub record Workflow : Type 0 where
  pub id : String
  pub tenant_id : String
  pub name : String
  pub description : Option String
  pub entity_type : String
  pub status : WorkflowStatus
  pub trigger : WorkflowTrigger
  pub pack : Option PackOrigin
  pub sla_config : SlaConfig
  pub version : ℕ

-- The configuration that `toDefinition` writes on a state.
pub record StateConfig : Type 0 where
  pub label : Option String
  pub step_type : Option String
  pub assigned_role : Option String
  pub sla_hours : Option ℕ
  pub form_fields : List Value
  pub required_documents : List String
  pub api_action : Option Value

pub record WorkflowState : Type 0 where
  pub id : String
  pub workflow_id : String
  pub name : String
  pub type : StateType
  pub description : Option String
  pub config : StateConfig

-- One entry of the legacy `rules[]`.
pub record Rule : Type 0 where
  pub field : String
  pub operator : String
  pub value : Option Value

-- An absent `rules` is the empty list, as every reader of it has it.
pub record Conditions : Type 0 where
  pub operator : String
  pub rules : List Rule
  pub json_logic : Option Value
  pub unevaluable : Option String
  pub source : Option String

-- Absent lists are empty, and an absent flag is `false`, as every reader has them.
pub record Permissions : Type 0 where
  pub roles : List String
  pub users : List String
  pub requires_sign_off : Bool

pub record Action : Type 0 where
  pub type : String
  pub config : Fields

pub record WorkflowTransition : Type 0 where
  pub id : String
  pub workflow_id : String
  pub from_state_id : String
  pub to_state_id : String
  pub name : String
  pub type : TransitionType
  pub conditions : Conditions
  pub actions : List Action
  pub permissions : Permissions
  pub is_active : Bool

-- `signedOffBy` with its credential
pub record SignOff : Type 0 where
  pub by : String
  pub credential_type : Option String
  pub credential : String

pub record HistoryEntry : Type 0 where
  pub timestamp : ℕ
  pub from_state : String
  pub to_state : String
  pub transition_id : String
  pub triggered_by : String
  pub automated_by : Option String
  pub signed_off : Option SignOff
  pub context : Fields

pub record WorkflowInstance : Type 0 where
  pub id : String
  pub tenant_id : String
  pub vertical : Option String
  pub workflow_id : String
  pub entity_id : String
  pub entity_type : String
  pub current_state_id : String
  pub status : InstanceStatus
  pub context : Fields
  pub history : List HistoryEntry
  pub state_entered_at : Option ℕ
  pub sla_deadline : Option ℕ
  pub escalation_level : ℕ
  pub completed_at : Option ℕ
  pub started_by : String
  pub created_at : ℕ

-- The columns of a user that the sign-off gate and the resolution of a client read.
pub record User : Type 0 where
  pub id : String
  pub tenant_id : String
  pub roles : List String
  pub email : String
  pub practitioner_credential : Option String
  pub practitioner_credential_type : Option String

-- The columns of a CRM record that ownership reads; the e-mail as `LOWER(TRIM(…))` has it.
pub record Entity : Type 0 where
  pub id : String
  pub tenant_id : String
  pub assigned_to : Option String
  pub subject_email : Option String

pub data PaymentStatus : Type 0 where
  pending paid failed refunded cancelled : PaymentStatus

-- What a payment is for, as `split` labels it.
pub data Description : Type 0 where
  plain : String → Description
  -- `label — instalment i of n`
  instalment : String → ℕ → ℕ → Description
  -- `label — stage`
  at_stage : String → String → Description
  -- `label — at step`
  at_named_step : String → String → Description

-- Of `metadata`, what `expand` writes there.
pub record Payment : Type 0 where
  pub tenant_id : String
  pub client_id : Option String
  pub entity_id : String
  pub amount_minor : ℕ
  pub currency : String
  pub status : PaymentStatus
  pub description : Description
  pub reference : Option String
  pub due_date : Option ℕ
  pub fee_kind : Option String
  pub fee_key : Option String
  pub plan_key : Option String
  pub at_step : Option String
  pub fee_reference : Option String
  pub refundable : Bool

-- The fields of a pack's `paymentPlans[]` that the gate reads.
pub record PaymentPlan : Type 0 where
  pub key : String
  pub block_progress_on_arrears : Bool

-- The audit entry of a transition.
-- What `logEvent` is handed of a transition: its states and its record are those of a human one.
pub record AuditEntry : Type 0 where
  pub tenant_id : String
  pub user_id : String
  pub user_email : Option String
  pub entity_id : String
  pub description : String
  pub critical : Bool
  pub before_state : Option String
  pub after_state : Option String
  pub automated : Option (String × Option String)
  pub transition_id : String
  pub record_entity : Option (String × String)
  pub signed_off : Option SignOff

pub record Db : Type 0 where
  pub workflows : List Workflow
  pub states : List WorkflowState
  pub transitions : List WorkflowTransition
  pub instances : List WorkflowInstance
  pub users : List User
  pub entities : List Entity
  pub payments : List Payment
  pub audit : List AuditEntry
  -- the actions handed to `executeActions`, with their instance's id
  pub executed : List (Action × String)
  -- how many ids the database has given out
  pub issued : ℕ
