-- ===== src/Billing/Overrides.antt =====
-- `setOverrides` of src/billing/fee-schedule.service.ts. The rows are written one by one, outside a
-- transaction, each with its audit entry after it; the table has one row for a tenant and a fee.
pub mod Laws
use meru_core.Base.{
  ℕ, String, Option, none, some, List, [], ◌∷◌, ◌++◌, Bool, true, false, not, ◌&&◌, ◌||◌, ◌==◌,
  if◌then◌else◌, any, filter, find?, map, includes, is_some, Result, ok, err, ◌>>=◌, ◌>>◌, guard,
  from_option,
}
use meru_core.Billing.Types.{
  FeeDefinition, FeeOverride, OverrideAudit, Ledger, Pack, BillingError, fee_not_defined,
  fee_not_firm, duplicate_row,
}
use meru_core.Billing.Fees.{fee_by_key, is_firm}

pub record OverrideRequest : Type 0 where
  pub fee_key : String
  pub amount_minor : ℕ
  pub currency : String

-- The validation loop, before anything is written.
unfoldable pub check_overrides :
    List FeeDefinition → List OverrideRequest → Result BillingError (Unit {0})
check_overrides fees [] = ok tt
check_overrides fees (o ∷ os) =
    from_option (fee_not_defined o.fee_key) (fee_by_key o.fee_key fees) >>= λ def.
    guard (is_firm def) (fee_not_firm o.fee_key) >>= λ _. check_overrides fees os

abbrev pub is_of : String → String → FeeOverride → Bool
is_of tenant_id key row = row.tenant_id == tenant_id && row.fee_key == key

unfoldable pub override_row : Pack → String → String → OverrideRequest → FeeOverride
override_row pack tenant_id updated_by o = record {
  tenant_id = tenant_id;
  fee_key = o.fee_key;
  amount_minor = o.amount_minor;
  currency = pack.to_upper o.currency;
  active = true;
  updated_by = updated_by;
}

-- One upsert: the row of the key is written over where there is one, and else a row is added.
unfoldable pub upsert : FeeOverride → List FeeOverride → List FeeOverride
upsert row [] = row ∷ []
upsert row (r ∷ rs) =
    let rest = upsert row rs in if is_of row.tenant_id row.fee_key r then row ∷ rs else r ∷ rest

abbrev amount_of : Option FeeOverride → Option ℕ
amount_of none = none
amount_of (some r) = some r.amount_minor

unfoldable pub set_audit : String → String → OverrideRequest → Option FeeOverride → OverrideAudit
set_audit tenant_id updated_by o prior = record {
  tenant_id = tenant_id;
  user_id = updated_by;
  fee_key = o.fee_key;
  amount_minor = some o.amount_minor;
  previous_amount_minor = amount_of prior;
}

abbrev removal_audit : String → FeeOverride → OverrideAudit
removal_audit updated_by r = record {
  tenant_id = r.tenant_id;
  user_id = updated_by;
  fee_key = r.fee_key;
  amount_minor = none;
  previous_amount_minor = some r.amount_minor;
}

-- The loop over the request. `existing` is what the table held at first: a key that stands twice in
-- the request, and had no row, is inserted twice, and the table refuses the second.
unfoldable pub upserts :
    Pack
    → String
    → String
    → List FeeOverride
    → List OverrideRequest
    → List FeeOverride
    → List OverrideAudit
    → Result BillingError (Unit {0}) × List FeeOverride × List OverrideAudit
upserts pack tenant_id updated_by existing [] rows audit = (ok tt, rows, audit)
upserts pack tenant_id updated_by existing (o ∷ os) rows audit =
    let next =
      upserts pack tenant_id updated_by existing os
        (upsert (override_row pack tenant_id updated_by o) rows)
        (audit ++ set_audit tenant_id updated_by o (find? (is_of tenant_id o.fee_key) rows) ∷ []) in
    if any (is_of tenant_id o.fee_key) rows && not (any (is_of tenant_id o.fee_key) existing)
    then (err duplicate_row, rows, audit)
    else next

-- The rows of a tenant that a request does not name are removed.
abbrev pub is_desired : String → List String → FeeOverride → Bool
is_desired tenant_id keys r = not (r.tenant_id == tenant_id) || includes keys r.fee_key

unfoldable pub keep_desired : String → List String → List FeeOverride → List FeeOverride
keep_desired tenant_id keys rows = filter (is_desired tenant_id keys) rows

abbrev pub finish_overrides :
    Pack
    → String
    → List OverrideRequest
    → String
    → Ledger
    → Result BillingError (Unit {0}) × List FeeOverride × List OverrideAudit
    → Result BillingError (List FeeOverride) × Ledger
finish_overrides pack tenant_id os updated_by ledger (result, rows, audit) = (
  result >>= λ _. ok (map (override_row pack tenant_id updated_by) os),
  record ledger { overrides = rows; override_audit = audit },
)

abbrev pub write_overrides :
    Pack
    → String
    → List OverrideRequest
    → String
    → Result BillingError (Unit {0})
    → Ledger
    → Result BillingError (List FeeOverride) × Ledger
write_overrides pack tenant_id os updated_by (err e) ledger = (err e, ledger)
write_overrides pack tenant_id os updated_by (ok u) ledger =
    let keys = map (λ o. o.fee_key) os in
    finish_overrides pack tenant_id os updated_by ledger (
      upserts pack tenant_id updated_by ledger.overrides os
        (keep_desired tenant_id keys ledger.overrides)
        (ledger.override_audit
          ++ map (removal_audit updated_by)
              (filter (λ r. not (is_desired tenant_id keys r)) ledger.overrides)))

unfoldable pub set_overrides :
    Pack
    → String
    → Option String
    → List OverrideRequest
    → String
    → Ledger
    → Result BillingError (List FeeOverride) × Ledger
set_overrides pack tenant_id vertical os updated_by ledger =
    write_overrides pack tenant_id os updated_by (check_overrides (pack.fees vertical) os) ledger
