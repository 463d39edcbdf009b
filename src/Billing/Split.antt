-- ===== src/Billing/Split.antt =====
-- `split` of src/billing/fee-schedule.service.ts: one fee as the portions that a plan asks for.
pub mod Laws
use meru_core.Base.{
  ℕ, zero, suc, ◌+◌, ◌-◌, ◌*◌, ◌/◌, String, Option, none, some, List, [], ◌∷◌, Bool, true, false,
  ◌==◌, if◌then◌else◌, nat_eq, is_empty, get_or, Result, ok, err,
}
use meru_core.Workflow.Types.{Description, plain, instalment, at_stage, at_named_step}
use meru_core.Workflow.Engine.Lookup.{present}
use meru_core.Billing.Types.{
  FeeDefinition, PlanType, upfront, installments, stage_gated, Stage, PaymentPlanDefinition,
  BillingError, stages_not_whole,
}

pub record Portion : Type 0 where
  pub amount_minor : ℕ
  pub label : Description
  pub due_date : Option ℕ
  pub at_step : Option String

abbrev pub single : FeeDefinition → ℕ → List Portion
single fee amount =
    record {
      amount_minor = amount;
      label = plain fee.label;
      due_date = none;
      at_step = fee.at_step;
    }
    ∷ []

-- `Math.max(1, n)`
abbrev pub at_least_one : ℕ → ℕ
at_least_one n = if nat_eq n 0 then 1 else n

-- The instalments from the `i`-th on, `left` of them; the first takes the remainder.
unfoldable pub instalments_from : FeeDefinition → ℕ → ℕ → ℕ → ℕ → ℕ → ℕ → ℕ → List Portion
instalments_from fee base remainder count start interval i zero = []
instalments_from fee base remainder count start interval i (suc left) =
    record {
      amount_minor = if nat_eq i 0 then base + remainder else base;
      label = instalment fee.label (suc i) count;
      due_date = some (start + i * interval * 86400000);
      at_step = fee.at_step;
    }
    ∷ instalments_from fee base remainder count start interval (suc i) left

abbrev stage_label : FeeDefinition → Stage → Option String → Description
stage_label fee s none = at_named_step fee.label s.at_step
stage_label fee s (some label) = at_stage fee.label label

abbrev stage_portion : FeeDefinition → Stage → ℕ → Portion
stage_portion fee s amount = record {
  amount_minor = amount;
  label = stage_label fee s (present s.label);
  due_date = none;
  at_step = some s.at_step;
}

-- The stages in order; the last takes what is left.
unfoldable pub staged : FeeDefinition → ℕ → ℕ → List Stage → List Portion
staged fee amount allocated [] = []
staged fee amount allocated (s ∷ []) = stage_portion fee s (amount - allocated) ∷ []
staged fee amount allocated (s ∷ t ∷ stages) =
    let portion = amount * s.portion_bps / 10000 in
    stage_portion fee s portion ∷ staged fee amount (allocated + portion) (t ∷ stages)

abbrev pub total_bps : List Stage → ℕ
total_bps [] = 0
total_bps (s ∷ ss) = s.portion_bps + total_bps ss

abbrev pub split_stages :
    FeeDefinition → ℕ → PaymentPlanDefinition → List Stage → Result BillingError (List Portion)
split_stages fee amount plan stages =
    if is_empty stages
    then ok (single fee amount)
    else if nat_eq (total_bps stages) 10000
    then ok (staged fee amount 0 stages)
    else err (stages_not_whole plan.key (total_bps stages))

abbrev pub split_instalments : FeeDefinition → ℕ → ℕ → ℕ → ℕ → List Portion
split_instalments fee amount start interval count =
    if nat_eq count 1
    then single fee amount
    else instalments_from fee (amount / count) (amount - amount / count * count) count start
        interval 0 count

abbrev pub split_as :
    FeeDefinition → ℕ → PaymentPlanDefinition → ℕ → PlanType → Result BillingError (List Portion)
split_as fee amount plan start upfront = ok (single fee amount)
split_as fee amount plan start installments = ok (
    split_instalments fee amount start (get_or plan.interval_days 30)
      (at_least_one (get_or plan.installment_count 1)))
split_as fee amount plan start stage_gated = split_stages fee amount plan (get_or plan.stages [])

unfoldable pub split :
    FeeDefinition → ℕ → Option PaymentPlanDefinition → ℕ → Result BillingError (List Portion)
split fee amount none start = ok (single fee amount)
split fee amount (some plan) start = split_as fee amount plan start (get_or plan.type upfront)
