-- ===== src/Billing/Overrides/Laws.antt =====
-- What `setOverrides` of src/billing/fee-schedule.service.ts leaves in the table.
use meru_core.Base.{
  String, Option, some, List, [], ◌∷◌, ◌≡◌, ◌≢◌, sym, ap, ◌∙◌, subst, true, not, ◌&&◌, ◌⊎◌, inl,
  inr, arith, eq_iff, any, map, includes_iff, In, In-filter_iff, Bool-cases, ok, >>=-eq-ok,
  from_option, from_option-eq-ok, guard, guard-eq-ok,
}
use meru_core.Billing.Types.{
  FeeDefinition, FeeOverride, OverrideAudit, Ledger, Pack, fee_not_defined, fee_not_firm,
}
use meru_core.Billing.Fees.{fee_by_key, is_firm}
use meru_core.Billing.Overrides.{
  OverrideRequest, check_overrides, is_of, override_row, upsert, upserts, keep_desired, is_desired,
  set_overrides,
}

abbrev pub keys_of : List OverrideRequest → List String
keys_of os = map (λ o. o.fee_key) os

-- The pack defines this fee, and it is the firm's own.
abbrev pub IsFirmFee : List FeeDefinition → String → Type 0
IsFirmFee fees key = (f : FeeDefinition) × (fee_by_key key fees ≡ some f) × (is_firm f ≡ true)

check_overrides-IsFirmFee :
    (fees : List FeeDefinition) (os : List OverrideRequest) {u : Unit {0}} (key : String)
    → check_overrides fees os ≡ ok u
    → In key (keys_of os)
    → IsFirmFee fees key
unfolding check_overrides
check_overrides-IsFirmFee fees [] key e m = absurd m
check_overrides-IsFirmFee fees (o ∷ os) key e m =
    let (f, q, e1) =
      >>=-eq-ok (from_option (fee_not_defined o.fee_key) (fee_by_key o.fee_key fees)) _ e in
    let (_, g, e2) = >>=-eq-ok (guard (is_firm f) (fee_not_firm o.fee_key)) _ e1 in
    elim m [
      | inl same ↦ (
        f,
        subst (λ k. fee_by_key k fees ≡ some f) (sym same) (from_option-eq-ok _ _ q),
        guard-eq-ok (is_firm f) _ g,
      )
      | inr n ↦ check_overrides-IsFirmFee fees os key e2 n
    ]

In-upsert :
    (row x : FeeOverride) (rs : List FeeOverride) → In x (upsert row rs) → (x ≡ row) ⊎ In x rs
unfolding upsert
In-upsert row x [] (inl e) = inl e
In-upsert row x [] (inr m) = absurd m
In-upsert row x (r ∷ rs) m = elim (Bool-cases (is_of row.tenant_id row.fee_key r)) [
  | inl hit ↦
      let there : (x ≡ row) ⊎ In x rs = rw hit at m in
      elim there [ inl e ↦ inl e | inr n ↦ inr (inr n) ]
  | inr miss ↦
      let there : (x ≡ r) ⊎ In x (upsert row rs) = rw miss at m in
      elim there [
        | inl e ↦ inr (inl e)
        | inr n ↦ elim (In-upsert row x rs n) [ inl e ↦ inl e | inr k ↦ inr (inr k) ]
      ]
]

-- An upsert of one tenant leaves the rows of the others.
upsert-keeps_others :
    (row x : FeeOverride) (rs : List FeeOverride)
    → x.tenant_id ≢ row.tenant_id
    → In x rs
    → In x (upsert row rs)
unfolding upsert
upsert-keeps_others row x [] h m = absurd m
upsert-keeps_others row x (r ∷ rs) h m = elim (Bool-cases (is_of row.tenant_id row.fee_key r)) [
  | inl hit ↦ elim m [
    | inl e ↦ absurd (
        h (
          ap (λ (y : FeeOverride). y.tenant_id) e
          ∙ (eq_iff r.tenant_id row.tenant_id).0 (ground arith)))
    | inr n ↦ rw hit (inr n)
  ]
  | inr miss ↦ elim m [
    | inl e ↦ rw miss (inl e)
    | inr n ↦ rw miss (inr (upsert-keeps_others row x rs h n))
  ]
]

module _ (pack : Pack) (tenant_id updated_by : String) (existing : List FeeOverride) where
  In-upserts :
      (os : List OverrideRequest) (x : FeeOverride) (rs : List FeeOverride)
      (audit : List OverrideAudit)
      → In x (upserts pack tenant_id updated_by existing os rs audit).1
      → In x.fee_key (keys_of os) ⊎ In x rs
  unfolding upserts override_row
  In-upserts [] x rs audit m = inr m
  In-upserts (o ∷ os) x rs audit m =
      elim (Bool-cases
        (any (is_of tenant_id o.fee_key) rs && not (any (is_of tenant_id o.fee_key) existing))) [
          | inl twice ↦ inr (rw twice at m)
          | inr once ↦
              elim (In-upserts os x (upsert (override_row pack tenant_id updated_by o) rs) _
                (rw once at m)) [
                  | inl k ↦ inl (inr k)
                  | inr n ↦ elim (In-upsert (override_row pack tenant_id updated_by o) x rs n) [
                    | inl e ↦ inl (inl (ap (λ (y : FeeOverride). y.fee_key) e))
                    | inr k ↦ inr k
                  ]
                ]
        ]

  upserts-keeps_others :
      (os : List OverrideRequest) (x : FeeOverride) (rs : List FeeOverride)
      (audit : List OverrideAudit)
      → x.tenant_id ≢ tenant_id
      → In x rs
      → In x (upserts pack tenant_id updated_by existing os rs audit).1
  unfolding upserts override_row
  upserts-keeps_others [] x rs audit h m = m
  upserts-keeps_others (o ∷ os) x rs audit h m =
      elim (Bool-cases
        (any (is_of tenant_id o.fee_key) rs && not (any (is_of tenant_id o.fee_key) existing))) [
          | inl twice ↦ rw twice m
          | inr once ↦ rw once (
              upserts-keeps_others os x (upsert (override_row pack tenant_id updated_by o) rs) _ h
                (upsert-keeps_others (override_row pack tenant_id updated_by o) x rs h m))
        ]

-- Whenever the overrides of a tenant pass the validation, even if the writing then stops half-way, each
-- row of that tenant is of a fee that the request names and that the pack defines as the firm's own,
-- and every row of another tenant is still there.
pub set_overrides_lem :
    (pack : Pack) (tenant_id : String) (vertical : Option String) (os : List OverrideRequest)
    (updated_by : String) (ledger : Ledger)
    → check_overrides (pack.fees vertical) os ≡ ok tt
    → ((x : FeeOverride)
        → In x (set_overrides pack tenant_id vertical os updated_by ledger).1.overrides
        → x.tenant_id ≡ tenant_id
        → In x.fee_key (keys_of os) × IsFirmFee (pack.fees vertical) x.fee_key)
      × ((x : FeeOverride)
          → In x ledger.overrides
          → x.tenant_id ≢ tenant_id
          → In x (set_overrides pack tenant_id vertical os updated_by ledger).1.overrides)
unfolding set_overrides keep_desired
set_overrides_lem pack tenant_id vertical os updated_by ledger h =
    let rows = keep_desired tenant_id (keys_of os) ledger.overrides in
    let desired = In-filter_iff (is_desired tenant_id (keys_of os)) ledger.overrides in
    let named : (x : FeeOverride) (audit : List OverrideAudit)
        → In x (upserts pack tenant_id updated_by ledger.overrides os rows audit).1
        → x.tenant_id ≡ tenant_id
        → In x.fee_key (keys_of os) =
      λ x audit m t.
        elim (In-upserts pack tenant_id updated_by ledger.overrides os x rows audit m) [
          | inl k ↦ k
          | inr n ↦
              (includes_iff (keys_of os) x.fee_key).0
                (ground (arith, ((desired x).0 n).1, (eq_iff x.tenant_id tenant_id).1 t))
        ] in
    rw h (
      λ x m t. (
        named x _ m t,
        check_overrides-IsFirmFee (pack.fees vertical) os x.fee_key h (named x _ m t),
      ),
      λ x m t.
          upserts-keeps_others pack tenant_id updated_by ledger.overrides os x rows _ t
            ((desired x).1 (m, ground (arith, eq_iff x.tenant_id tenant_id))),
    )
