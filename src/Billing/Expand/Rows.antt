-- ===== src/Billing/Expand/Rows.antt =====
-- The rows that `expand` of src/billing/fee-schedule.service.ts builds: what they charge, and whose
-- they are.
use meru_core.Base.{
  ℕ, ◌+◌, String, Option, some, List, [], ◌∷◌, ◌++◌, ◌≡◌, refl, sym, ap, ◌∙◌, subst, inl, inr,
  arith, nat_eq, map, In, In-of_map, In-append_cases, Bool-cases, ok, >>=-eq-ok,
}
use meru_core.Workflow.Types.{Payment}
use meru_core.Billing.Types.{FeeDefinition, PaymentPlanDefinition, ExpandRequest, Pack}
use meru_core.Billing.Split.{Portion, split}
use meru_core.Billing.Split.Laws.{total, split-total}
use meru_core.Billing.Fees.{amount_for}
use meru_core.Billing.Expand.{row_of, rows_of, rows}

abbrev pub charged : List Payment → ℕ
charged [] = 0
charged (p ∷ ps) = p.amount_minor + charged ps

abbrev pub owed : ExpandRequest → List FeeDefinition → ℕ
owed req [] = 0
owed req (f ∷ fs) = amount_for f req + owed req fs

charged-append : (ps qs : List Payment) → charged (ps ++ qs) ≡ charged ps + charged qs
charged-append [] qs = ground arith
charged-append (p ∷ ps) qs = ground (arith, charged-append ps qs)

module _ (pack : Pack) (req : ExpandRequest) (user_id : String)
    (plan : Option PaymentPlanDefinition) (start : ℕ) where
  charged-map :
      (fee : FeeDefinition) (ps : List Portion)
      → charged (map (row_of pack req user_id fee plan) ps) ≡ total ps
  unfolding row_of
  charged-map fee [] = refl
  charged-map fee (p ∷ ps) = ap (λ n. p.amount_minor + n) (charged-map fee ps)

  rows_of-charged :
      (fee : FeeDefinition) (ps : List Payment)
      → rows_of pack req user_id plan start fee ≡ ok ps
      → charged ps ≡ amount_for fee req
  unfolding rows_of
  rows_of-charged fee ps e = elim (Bool-cases (nat_eq (amount_for fee req) 0)) [
    | inl nothing ↦
        let same : [] ≡ ps = cc (rw nothing at e) in sym (ap charged same) ∙ ground arith
    | inr some_amount ↦
        let (portions, q, k) =
          >>=-eq-ok (split fee (amount_for fee req) plan start) _ (rw some_amount at e) in
        let same : map (row_of pack req user_id fee plan) portions ≡ ps = cc k in
        sym (ap charged same)
        ∙ charged-map fee portions
        ∙ split-total fee (amount_for fee req) plan start portions q
  ]

  pub rows-charged :
      (fees : List FeeDefinition) (ps : List Payment)
      → rows pack req user_id plan start fees ≡ ok ps
      → charged ps ≡ owed req fees
  unfolding rows
  rows-charged [] ps e = ground arith
  rows-charged (fee ∷ fees) ps e =
      let (here, h, k) = >>=-eq-ok (rows_of pack req user_id plan start fee) _ e in
      let (rest, r, j) = >>=-eq-ok (rows pack req user_id plan start fees) _ k in
      let same : here ++ rest ≡ ps = cc j in
      let a = rows_of-charged fee here h in
      let b = rows-charged fees rest r in
      sym (ap charged same) ∙ charged-append here rest ∙ ground (arith, a, b)

-- A row of an expansion is of the tenant, of the record, and of one of the fees.
abbrev pub IsExpansionOf : ExpandRequest → List FeeDefinition → Payment → Type 0
IsExpansionOf req fees p =
    (p.tenant_id ≡ req.tenant_id)
    × (p.entity_id ≡ req.entity_id)
    × ((f : FeeDefinition) × In f fees × (p.fee_key ≡ some f.key))

module _ (pack : Pack) (req : ExpandRequest) (user_id : String)
    (plan : Option PaymentPlanDefinition) (start : ℕ) where
  rows_of-of :
      (fee : FeeDefinition) (ps : List Payment) (p : Payment)
      → rows_of pack req user_id plan start fee ≡ ok ps
      → In p ps
      → IsExpansionOf req (fee ∷ []) p
  unfolding rows_of row_of
  rows_of-of fee ps p e m = elim (Bool-cases (nat_eq (amount_for fee req) 0)) [
    | inl nothing ↦ let same : [] ≡ ps = cc (rw nothing at e) in absurd (subst (In p) (sym same) m)
    | inr some_amount ↦
        let (portions, q, k) =
          >>=-eq-ok (split fee (amount_for fee req) plan start) _ (rw some_amount at e) in
        let same : map (row_of pack req user_id fee plan) portions ≡ ps = cc k in
        let (x, n, r) =
          In-of_map (row_of pack req user_id fee plan) portions p (subst (In p) (sym same) m) in
        (
          ap (λ (y : Payment). y.tenant_id) r,
          ap (λ (y : Payment). y.entity_id) r,
          (fee, inl refl, ap (λ (y : Payment). y.fee_key) r),
        )
  ]

  pub rows-of :
      (fees : List FeeDefinition) (ps : List Payment) (p : Payment)
      → rows pack req user_id plan start fees ≡ ok ps
      → In p ps
      → IsExpansionOf req fees p
  unfolding rows
  rows-of [] ps p e m = let same : [] ≡ ps = cc e in absurd (subst (In p) (sym same) m)
  rows-of (fee ∷ fees) ps p e m =
      let (here, h, k) = >>=-eq-ok (rows_of pack req user_id plan start fee) _ e in
      let (rest, r, j) = >>=-eq-ok (rows pack req user_id plan start fees) _ k in
      let same : here ++ rest ≡ ps = cc j in
      elim (In-append_cases here rest p (subst (In p) (sym same) m)) [
        | inl n ↦
            let (a, b, (f, i, q)) = rows_of-of fee here p h n in
            (a, b, (f, elim i [ inl s ↦ inl s | inr z ↦ absurd z ], q))
        | inr n ↦ let (a, b, (f, i, q)) = rows-of fees rest p r n in (a, b, (f, inr i, q))
      ]
