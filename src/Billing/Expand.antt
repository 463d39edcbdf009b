-- ===== src/Billing/Expand.antt =====
-- `expand` of src/billing/fee-schedule.service.ts, with `resolveClientUserId` of
-- src/billing/payments.service.ts.
pub mod Rows
pub mod Laws
pub mod Again
use meru_core.Base.{
  ℕ, String, Option, none, some, List, [], ◌∷◌, ◌++◌, Bool, true, false, not, ◌&&◌, ◌==◌,
  if◌then◌else◌, nat_eq, leb, length, is_empty, includes, filter, find?, map, get_or, Result, ok,
  err, ◌>>=◌, ◌>>◌, guard, from_option,
}
use meru_core.Access.{client}
use meru_core.Workflow.Types.{User, Payment, PaymentStatus}
use meru_core.Workflow.Engine.Lookup.{present}
use meru_core.Billing.Types.{
  FeeDefinition, PaymentPlanDefinition, ExpandRequest, Person, Ledger, Pack, BillingError,
  mixed_currencies, staff_account, client_not_found, no_email, not_invited,
}
use meru_core.Billing.Split.{Portion, split}
use meru_core.Billing.Fees.{fees_for, plan_for, amount_for}

-- An account of the tenant with the person's e-mail, whatever its case.
unfoldable pub account_of : Pack → String → Person → List User → Result BillingError String
account_of pack tenant_id person users = do
  email ← from_option no_email (present person.email)
  user ←
      from_option not_invited
        (find? (λ u. u.tenant_id == tenant_id && pack.lower u.email == pack.lower email) users)
  ok user.id

abbrev resolve_person : Pack → String → String → Ledger → Result BillingError String
resolve_person pack tenant_id client_id ledger = do
  person ←
      from_option client_not_found
        (find? (λ p. p.id == client_id && (p.tenant_id == tenant_id && p.is_person)) ledger.people)
  account_of pack tenant_id person ledger.users

abbrev resolve_as : Pack → String → String → Ledger → Option User → Result BillingError String
resolve_as pack tenant_id client_id ledger none = resolve_person pack tenant_id client_id ledger
resolve_as pack tenant_id client_id ledger (some user) =
    if includes user.roles client then ok user.id else err staff_account

unfoldable pub resolve_client_user_id : Pack → String → String → Ledger → Result BillingError String
resolve_client_user_id pack tenant_id client_id ledger =
    resolve_as pack tenant_id client_id ledger
      (find? (λ u. u.id == client_id && u.tenant_id == tenant_id) ledger.users)

-- `request.planKey ? … : null`
abbrev pub optional_plan :
    Pack → Option String → Option String → Result BillingError (Option PaymentPlanDefinition)
optional_plan pack vertical none = ok none
optional_plan pack vertical (some key) = plan_for pack vertical key >>= λ plan. ok (some plan)

-- An empty `clientId` is written as it is.
abbrev pub client_of : Pack → ExpandRequest → Ledger → Result BillingError String
client_of pack req ledger =
    if req.client_id == ""
    then ok ""
    else resolve_client_user_id pack req.tenant_id req.client_id ledger

-- `new Set(items)`, in the order of insertion
abbrev add : List String → String → List String
add set s = if includes set s then set else set ++ s ∷ []

unfoldable pub distinct : List String → List String → List String
distinct set [] = set
distinct set (s ∷ ss) = distinct (add set s) ss

abbrev pub is_of_fees : List String → Option String → Bool
is_of_fees keys none = false
is_of_fees keys (some key) = includes keys key

-- What has been expanded of these fees for this record already.
unfoldable pub existing_payments : ExpandRequest → Ledger → List Payment
existing_payments req ledger =
    filter
      (λ p.
        p.tenant_id == req.tenant_id
        && (p.entity_id == req.entity_id && is_of_fees req.fee_keys p.fee_key))
      ledger.payments

abbrev plan_key_of : Option PaymentPlanDefinition → Option String
plan_key_of none = none
plan_key_of (some plan) = some plan.key

unfoldable pub row_of :
    Pack → ExpandRequest → String → FeeDefinition → Option PaymentPlanDefinition → Portion → Payment
row_of pack req user_id fee plan portion = record {
  tenant_id = req.tenant_id;
  client_id = some user_id;
  entity_id = req.entity_id;
  amount_minor = portion.amount_minor;
  currency = pack.to_upper fee.currency;
  status = PaymentStatus.pending;
  description = portion.label;
  reference = req.reference;
  due_date = portion.due_date;
  fee_kind = some (get_or fee.kind "firm");
  fee_key = some fee.key;
  plan_key = plan_key_of plan;
  at_step = portion.at_step;
  fee_reference = present fee.reference;
  refundable = get_or fee.refundable false;
}

-- One round of the loop: a fee of no amount is passed over.
unfoldable pub rows_of :
    Pack
    → ExpandRequest
    → String
    → Option PaymentPlanDefinition
    → ℕ
    → FeeDefinition
    → Result BillingError (List Payment)
rows_of pack req user_id plan start fee =
    if nat_eq (amount_for fee req) 0
    then ok []
    else split fee (amount_for fee req) plan start >>= λ ps.
        ok (map (row_of pack req user_id fee plan) ps)

unfoldable pub rows :
    Pack
    → ExpandRequest
    → String
    → Option PaymentPlanDefinition
    → ℕ
    → List FeeDefinition
    → Result BillingError (List Payment)
rows pack req user_id plan start [] = ok []
rows pack req user_id plan start (fee ∷ fees) = rows_of pack req user_id plan start fee >>= λ here.
    rows pack req user_id plan start fees >>= λ rest. ok (here ++ rest)

-- What `expand` builds when nothing exists yet.
unfoldable pub new_rows :
    Pack
    → ExpandRequest
    → List FeeDefinition
    → Option PaymentPlanDefinition
    → Ledger
    → Result BillingError (List Payment)
new_rows pack req fees plan ledger =
    let currencies = distinct [] (map (λ f. pack.to_upper f.currency) fees) in
    guard (leb (length currencies) 1) (mixed_currencies currencies) >>= λ _.
    client_of pack req ledger >>= λ user_id.
    rows pack req user_id plan (get_or req.start_date pack.now) fees

abbrev save_rows :
    Result BillingError (List Payment) → Ledger → Result BillingError (List Payment) × Ledger
save_rows (err e) ledger = (err e, ledger)
save_rows (ok new) ledger = (ok new, record ledger { payments = ledger.payments ++ new })

abbrev expand_with :
    Pack
    → ExpandRequest
    → Result BillingError (List FeeDefinition × Option PaymentPlanDefinition)
    → Ledger
    → Result BillingError (List Payment) × Ledger
expand_with pack req (err e) ledger = (err e, ledger)
expand_with pack req (ok (fees, plan)) ledger =
    if is_empty (existing_payments req ledger)
    then save_rows (new_rows pack req fees plan ledger) ledger
    else (ok (existing_payments req ledger), ledger)

unfoldable pub resolved :
    Pack
    → ExpandRequest
    → Ledger
    → Result BillingError (List FeeDefinition × Option PaymentPlanDefinition)
resolved pack req ledger = fees_for pack req.tenant_id req.vertical req.fee_keys ledger >>= λ fees.
    optional_plan pack req.vertical (present req.plan_key) >>= λ plan. ok (fees, plan)

unfoldable pub expand : Pack → ExpandRequest → Ledger → Result BillingError (List Payment) × Ledger
expand pack req ledger = expand_with pack req (resolved pack req ledger) ledger
