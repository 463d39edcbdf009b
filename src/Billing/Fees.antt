-- ===== src/Billing/Fees.antt =====
-- `withOverrides`, `feesFor`, `planFor`, `amountFor` and `catalogue` of src/billing/fee-
-- schedule.service.ts.
pub mod Laws
use meru_core.Base.{
  ℕ, zero, suc, ◌*◌, String, Option, none, some, List, [], ◌∷◌, Bool, true, false, not, ◌&&◌, ◌==◌,
  if◌then◌else◌, is_empty, is_some, includes, filter, find?, map, get_or, Result, ok, err, guard,
  ◌>>=◌, ◌>>◌, from_option,
}
use meru_core.Workflow.Engine.Lookup.{is_text}
use meru_core.Billing.Types.{
  Basis, per_case, per_applicant, per_dependent, FeeDefinition, PaymentPlanDefinition,
  ExpandRequest, FeeOverride, Ledger, Pack, BillingError, fees_not_defined, plan_not_defined,
}
use meru_core.Billing.Split.{at_least_one}

-- `new Map(items.map(i => [key(i), i]))`, read at a key: the last of that key.
unfoldable pub fee_by_key : String → List FeeDefinition → Option FeeDefinition
fee_by_key key [] = none
fee_by_key key (f ∷ fs) = elim (fee_by_key key fs) [
  | some found ↦ some found
  | none ↦ if f.key == key then some f else none
]

unfoldable pub override_by_key : String → List FeeOverride → Option FeeOverride
override_by_key key [] = none
override_by_key key (o ∷ os) = elim (override_by_key key os) [
  | some found ↦ some found
  | none ↦ if o.fee_key == key then some o else none
]

abbrev pub is_firm : FeeDefinition → Bool
is_firm f = is_text f.kind "firm"

abbrev apply_override : FeeDefinition → Option FeeOverride → FeeDefinition
apply_override f none = f
apply_override f (some o) = record f { amount_minor = o.amount_minor; currency = o.currency }

-- The override of a firm's own fee stands in for the pack's amount and currency.
unfoldable pub override : List FeeOverride → FeeDefinition → FeeDefinition
override os f = if is_firm f then apply_override f (override_by_key f.key os) else f

unfoldable pub with_overrides : String → Ledger → List FeeDefinition → List FeeDefinition
with_overrides tenant_id ledger fees =
    let firm_keys = map (λ f. f.key) (filter is_firm fees) in
    let overrides =
      filter (λ o. o.tenant_id == tenant_id && (includes firm_keys o.fee_key && o.active))
        ledger.overrides in
    if is_empty firm_keys
    then fees
    else if is_empty overrides
    then fees
    else map (override overrides) fees

abbrev pub add_found : Option FeeDefinition → List FeeDefinition → List FeeDefinition
add_found none rest = rest
add_found (some f) rest = f ∷ rest

-- `keys.map((k) => byKey.get(k)!)`, of keys that are all defined
unfoldable pub fees_of : List String → List FeeDefinition → List FeeDefinition
fees_of [] all = []
fees_of (k ∷ ks) all = add_found (fee_by_key k all) (fees_of ks all)

unfoldable pub missing_fees : List String → List FeeDefinition → List String
missing_fees keys all = filter (λ k. not (is_some (fee_by_key k all))) keys

unfoldable pub fees_for :
    Pack → String → Option String → List String → Ledger → Result BillingError (List FeeDefinition)
fees_for pack tenant_id vertical keys ledger = do
  guard (is_empty (missing_fees keys (pack.fees vertical)))
      (fees_not_defined (missing_fees keys (pack.fees vertical)))
  ok (with_overrides tenant_id ledger (fees_of keys (pack.fees vertical)))

unfoldable pub plan_for : Pack → Option String → String → Result BillingError PaymentPlanDefinition
plan_for pack vertical key =
    from_option (plan_not_defined key) (find? (λ p. p.key == key) (pack.plans vertical))

unfoldable pub amount_as : Basis → ℕ → Option ℕ → Option ℕ → ℕ
amount_as per_applicant amount applicants dependents = amount * at_least_one (get_or applicants 1)
amount_as per_dependent amount applicants dependents = amount * get_or dependents 0
amount_as per_case amount applicants dependents = amount

abbrev pub amount_for : FeeDefinition → ExpandRequest → ℕ
amount_for fee req =
    amount_as (get_or fee.basis per_case) fee.amount_minor req.applicants req.dependents

pub catalogue :
    Pack → Option String → String → Ledger → List FeeDefinition × List PaymentPlanDefinition
catalogue pack vertical tenant_id ledger =
    (with_overrides tenant_id ledger (pack.fees vertical), pack.plans vertical)
