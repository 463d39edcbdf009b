-- ===== src/Billing/Tests.antt =====
-- One government fee and one firm fee, a plan of three instalments, and one of two stages.
use meru_core.Base.{ℕ, none, some, List, [], ◌∷◌, ◌≡◌, ◌≢◌, refl, true, false, ok, err, get_or}
use meru_core.Access.{client}
use meru_core.Workflow.Types.{User, Payment, PaymentStatus, plain, instalment}
use meru_core.Billing.Types.{
  per_applicant, FeeDefinition, installments, stage_gated, PaymentPlanDefinition, ExpandRequest,
  FeeOverride, Ledger, Pack, fees_not_defined,
}
use meru_core.Billing.Split.{Portion, split, instalments_from}
use meru_core.Billing.Split.Laws.{total, split-total}
use meru_core.Billing.Fees.{
  with_overrides, override, override_by_key, fees_for, fees_of, fee_by_key, missing_fees, amount_as,
}
use meru_core.Billing.Expand.{
  expand, resolved, existing_payments, new_rows, rows, rows_of, row_of, resolve_client_user_id,
  account_of, distinct,
}
use meru_core.Billing.Expand.Again.{expand_again}
use meru_core.Billing.Overrides.{OverrideRequest, check_overrides}
use meru_core.Billing.Expand.Laws.{Outcome, expand-Outcome}

abbrev visa_fee : FeeDefinition
visa_fee = record {
  key = "gov_visa";
  label = "Visa charge";
  kind = some "government";
  amount_minor = 1000;
  currency = "AUD";
  basis = some per_applicant;
  refundable = none;
  reference = some "Reg 2.12";
  at_step = some "lodged";
}

abbrev service_fee : FeeDefinition
service_fee = record {
  key = "service";
  label = "Service";
  kind = some "firm";
  amount_minor = 500;
  currency = "AUD";
  basis = none;
  refundable = some true;
  reference = none;
  at_step = none;
}

abbrev three_parts : PaymentPlanDefinition
three_parts = record {
  key = "three";
  label = "Three parts";
  type = some installments;
  installment_count = some 3;
  interval_days = some 7;
  stages = none;
}

abbrev two_stages : PaymentPlanDefinition
two_stages = record {
  key = "staged";
  label = "Staged";
  type = some stage_gated;
  installment_count = none;
  interval_days = none;
  stages = some (
      record { at_step = "lodged"; portion_bps = 3333; label = none }
      ∷ record { at_step = "granted"; portion_bps = 6667; label = some "on grant" }
      ∷ []);
}

abbrev pack : Pack
pack = record {
  fees = λ v. visa_fee ∷ service_fee ∷ [];
  plans = λ v. three_parts ∷ two_stages ∷ [];
  now = 0;
  to_upper = λ s. s;
  lower = λ s. s;
}

abbrev ana : User
ana = record {
  id = "u1";
  tenant_id = "t1";
  roles = client ∷ [];
  email = "ana@example.org";
  practitioner_credential = none;
  practitioner_credential_type = none;
}

abbrev own_price : FeeOverride
own_price = record {
  tenant_id = "t1";
  fee_key = "service";
  amount_minor = 800;
  currency = "AUD";
  active = true;
  updated_by = "admin";
}

abbrev ledger : Ledger
ledger = record {
  payments = [];
  overrides = own_price ∷ [];
  override_audit = [];
  users = ana ∷ [];
  people =
      record { id = "p1"; tenant_id = "t1"; is_person = true; email = some "ana@example.org" } ∷ [];
}

-- Ana is billed by her record in the CRM, for two applicants.
abbrev request : ExpandRequest
request = record {
  tenant_id = "t1";
  vertical = none;
  entity_id = "case1";
  client_id = "p1";
  fee_keys = "gov_visa" ∷ "service" ∷ [];
  plan_key = none;
  applicants = some 2;
  dependents = none;
  start_date = none;
  reference = none;
}

abbrev unknown_fee : ExpandRequest
unknown_fee = record request { fee_keys = "gov_visa" ∷ "nothing" ∷ [] }

abbrev billed : ExpandRequest → FeeDefinition → ℕ → Payment
billed req fee amount = record {
  tenant_id = "t1";
  client_id = some "u1";
  entity_id = "case1";
  amount_minor = amount;
  currency = fee.currency;
  status = PaymentStatus.pending;
  description = plain fee.label;
  reference = none;
  due_date = none;
  fee_kind = fee.kind;
  fee_key = some fee.key;
  plan_key = none;
  at_step = fee.at_step;
  fee_reference = fee.reference;
  refundable = get_or fee.refundable false;
}

abbrev bill : List Payment
bill = billed request visa_fee 2000 ∷ billed request service_fee 800 ∷ []

expand-request : (expand pack request ledger).0 ≡ ok bill
unfolding expand
expand-request =
    unfold resolved fees_for fees_of fee_by_key missing_fees with_overrides override override_by_key
      existing_payments new_rows distinct resolve_client_user_id account_of rows rows_of amount_as
      split row_of in
    refl

expand-Outcome_example : Outcome pack request ledger bill
expand-Outcome_example = expand-Outcome pack request ledger bill expand-request

bill_ne : bill ≢ []
bill_ne e = cc

expand_again_example :
    expand pack request (expand pack request ledger).1 ≡ (ok bill, (expand pack request ledger).1)
expand_again_example = expand_again pack request ledger bill expand-request bill_ne

expand_unknown : (expand pack unknown_fee ledger).0 ≡ err (fees_not_defined ("nothing" ∷ []))
unfolding expand
expand_unknown = unfold resolved fees_for fees_of fee_by_key missing_fees in refl

abbrev parts : ℕ → ℕ → ℕ → List Portion
parts a b c =
    record { amount_minor = a; label = instalment "Service" 1 3; due_date = some 0; at_step = none }
    ∷ record {
      amount_minor = b;
      label = instalment "Service" 2 3;
      due_date = some 604800000;
      at_step = none;
    }
    ∷ record {
      amount_minor = c;
      label = instalment "Service" 3 3;
      due_date = some 1209600000;
      at_step = none;
    }
    ∷ []

-- 500 in three parts: the first takes the remainder.
split_three : split service_fee 500 (some three_parts) 0 ≡ ok (parts 168 166 166)
unfolding split instalments_from
split_three = refl

split-total_example : total (parts 168 166 166) ≡ 500
split-total_example =
    split-total service_fee 500 (some three_parts) 0 (parts 168 166 166) split_three

abbrev new_price : OverrideRequest
new_price = record { fee_key = "service"; amount_minor = 650; currency = "AUD" }

new_price_checked : check_overrides (pack.fees none) (new_price ∷ []) ≡ ok tt
unfolding check_overrides
new_price_checked = unfold fee_by_key in refl
