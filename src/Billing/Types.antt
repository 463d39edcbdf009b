-- ===== src/Billing/Types.antt =====
-- The entries of a pack's `fees[]` and `paymentPlans[]`, a request to expand them, and the tables
-- that src/billing/fee-schedule.service.ts and `resolveClientUserId` of
-- src/billing/payments.service.ts read.
use meru_core.Base.{ℕ, String, Option, List, Bool}
use meru_core.Workflow.Types.{Payment, User}

pub data Basis : Type 0 where
  per_case per_applicant per_dependent : Basis

pub record FeeDefinition : Type 0 where
  pub key : String
  pub label : String
  pub kind : Option String
  pub amount_minor : ℕ
  pub currency : String
  pub basis : Option Basis
  pub refundable : Option Bool
  pub reference : Option String
  pub at_step : Option String

pub data PlanType : Type 0 where
  upfront installments stage_gated : PlanType

pub record Stage : Type 0 where
  pub at_step : String
  pub portion_bps : ℕ
  pub label : Option String

pub record PaymentPlanDefinition : Type 0 where
  pub key : String
  pub label : String
  pub type : Option PlanType
  pub installment_count : Option ℕ
  pub interval_days : Option ℕ
  pub stages : Option (List Stage)

pub record ExpandRequest : Type 0 where
  pub tenant_id : String
  pub vertical : Option String
  pub entity_id : String
  pub client_id : String
  pub fee_keys : List String
  pub plan_key : Option String
  pub applicants : Option ℕ
  pub dependents : Option ℕ
  pub start_date : Option ℕ
  pub reference : Option String

-- A row of `tenant_fee_overrides`.
pub record FeeOverride : Type 0 where
  pub tenant_id : String
  pub fee_key : String
  pub amount_minor : ℕ
  pub currency : String
  pub active : Bool
  pub updated_by : String

-- A record of the CRM, as `resolveClientUserId` reads it.
pub record Person : Type 0 where
  pub id : String
  pub tenant_id : String
  pub is_person : Bool
  pub email : Option String

-- The audit entry of a row that is set, or removed (then without an amount).
pub record OverrideAudit : Type 0 where
  pub tenant_id : String
  pub user_id : String
  pub fee_key : String
  pub amount_minor : Option ℕ
  pub previous_amount_minor : Option ℕ

pub record Ledger : Type 0 where
  pub payments : List Payment
  pub overrides : List FeeOverride
  pub override_audit : List OverrideAudit
  pub users : List User
  pub people : List Person

-- What the service finds around it: the sections of the vertical's pack, the clock, and how the
-- runtime and the database fold the case of a text.
pub record Pack : Type 0 where
  pub fees : Option String → List FeeDefinition
  pub plans : Option String → List PaymentPlanDefinition
  pub now : ℕ
  pub to_upper : String → String
  pub lower : String → String

pub data BillingError : Type 0 where
  fees_not_defined : List String → BillingError
  plan_not_defined : String → BillingError
  mixed_currencies : List String → BillingError
  stages_not_whole : String → ℕ → BillingError
  staff_account client_not_found no_email not_invited : BillingError
  fee_not_defined : String → BillingError
  fee_not_firm : String → BillingError
  duplicate_row : BillingError
