-- ===== src/Billing/Expand/Again.antt =====
-- `expand` of src/billing/fee-schedule.service.ts, called twice.
use meru_core.Base.{
  Option, List, [], ◌∷◌, ◌++◌, ◌≡◌, ◌≢◌, refl, sym, ap, ◌∙◌, subst, Bool, true, false, ◌&&◌, ◌==◌,
  inl, inr, eq_refl, is_empty, includes_iff, filter, In, Bool-cases, ok, >>=-eq-ok, guard, get_or,
}
use meru_core.Workflow.Types.{Payment}
use meru_core.Workflow.Engine.Lookup.{present}
use meru_core.Billing.Types.{FeeDefinition, PaymentPlanDefinition, ExpandRequest, Ledger, Pack}
use meru_core.Billing.Fees.{fees_for, missing_fees, with_overrides, fees_of}
use meru_core.Billing.Fees.Laws.{quoted-key}
use meru_core.Billing.Expand.{
  existing_payments, new_rows, resolved, expand, is_of_fees, optional_plan,
}
use meru_core.Billing.Expand.Rows.{IsExpansionOf, rows-of}
use meru_core.Billing.Expand.Laws.{refused, repeated, created, expand-Ending, new_rows-rows}

module _ (req : ExpandRequest) where
  is_existing : Payment → Bool
  is_existing p =
      p.tenant_id == req.tenant_id
      && (p.entity_id == req.entity_id && is_of_fees req.fee_keys p.fee_key)

  filter-append :
      (ps qs : List Payment)
      → filter is_existing (ps ++ qs) ≡ filter is_existing ps ++ filter is_existing qs
  filter-append [] qs = refl
  filter-append (p ∷ ps) qs = elim (Bool-cases (is_existing p)) [
    | inl h ↦ rw h (ap (λ r. p ∷ r) (filter-append ps qs))
    | inr h ↦ rw h (filter-append ps qs)
  ]

  filter-all :
      (ps : List Payment)
      → ((p : Payment) → In p ps → is_existing p ≡ true)
      → filter is_existing ps ≡ ps
  filter-all [] h = refl
  filter-all (p ∷ ps) h = rw (h p (inl refl)) (ap (λ r. p ∷ r) (filter-all ps (λ q m. h q (inr m))))

  expansion-existing :
      (fees : List FeeDefinition) (p : Payment)
      → ((f : FeeDefinition) → In f fees → In f.key req.fee_keys)
      → IsExpansionOf req fees p
      → is_existing p ≡ true
  unfolding is_existing
  expansion-existing fees p keyed (a, b, (f, m, q)) = simp (
    a,
    b,
    q,
    eq_refl req.tenant_id,
    eq_refl req.entity_id,
    (includes_iff req.fee_keys f.key).1 (keyed f m),
  )

-- The fees that a request resolves to have the keys that it asks for.
resolved-keyed :
    (pack : Pack) (req : ExpandRequest) (ledger : Ledger) (fees : List FeeDefinition)
    (plan : Option PaymentPlanDefinition)
    → resolved pack req ledger ≡ ok (fees, plan)
    → (f : FeeDefinition) → In f fees
    → In f.key req.fee_keys
unfolding resolved fees_for
resolved-keyed pack req ledger fees plan e f m =
    let (quoted, h, k) =
      >>=-eq-ok (fees_for pack req.tenant_id req.vertical req.fee_keys ledger) _ e in
    let (p, _, j) = >>=-eq-ok (optional_plan pack req.vertical (present req.plan_key)) _ k in
    let same : quoted ≡ fees = cc j in
    let (_, _, l) =
      >>=-eq-ok (guard (is_empty (missing_fees req.fee_keys (pack.fees req.vertical))) _) _ h in
    let was : with_overrides req.tenant_id ledger (fees_of req.fee_keys (pack.fees req.vertical))
        ≡ quoted =
      cc l in
    quoted-key req.tenant_id ledger req.fee_keys (pack.fees req.vertical) f
      (subst (In f) (sym (was ∙ same)) m)

resolved_same :
    (pack : Pack) (req : ExpandRequest) (ledger : Ledger) (ps : List Payment)
    → resolved pack req (record ledger { payments = ps }) ≡ resolved pack req ledger
resolved_same pack req ledger ps = unfold resolved fees_for with_overrides in refl

existing-after :
    (pack : Pack) (req : ExpandRequest) (ledger : Ledger) (fees : List FeeDefinition)
    (plan : Option PaymentPlanDefinition) (new : List Payment)
    → resolved pack req ledger ≡ ok (fees, plan)
    → existing_payments req ledger ≡ []
    → new_rows pack req fees plan ledger ≡ ok new
    → existing_payments req (record ledger { payments = ledger.payments ++ new }) ≡ new
unfolding existing_payments
existing-after pack req ledger fees plan new a b c =
    let (user_id, d) = new_rows-rows pack req fees plan ledger new c in
    let keyed = resolved-keyed pack req ledger fees plan a in
    let all_new = filter-all req new (λ p m.
      expansion-existing req fees p keyed
        (rows-of pack req user_id plan (get_or req.start_date pack.now) fees new p d m)) in
    unfold is_existing in
    filter-append req ledger.payments new ∙ ap (λ r. r ++ filter (is_existing req) new) b ∙ all_new

not_empty : (ps : List Payment) → ps ≢ [] → is_empty ps ≡ false
not_empty [] h = absurd (h refl)
not_empty (p ∷ ps) h = refl

-- A request that has created rows creates none when it is made again: it returns the same rows, and
-- the ledger stays as the first left it.
pub expand_again :
    (pack : Pack) (req : ExpandRequest) (ledger : Ledger) (ps : List Payment)
    → (expand pack req ledger).0 ≡ ok ps
    → ps ≢ []
    → expand pack req (expand pack req ledger).1 ≡ (ok ps, (expand pack req ledger).1)
expand_again pack req ledger ps h some_row = elim (expand-Ending pack req ledger) [
  | refused x q ↦ let s = ap (λ r. r.0) q in cc (s, h)
  | repeated x q ↦
      let s : existing_payments req ledger ≡ ps = cc (sym (ap (λ r. r.0) q) ∙ h) in
      subst (λ l. expand pack req l ≡ (ok ps, l)) (sym (ap (λ r. r.1) q))
        (q ∙ ap (λ r. (ok r, ledger)) s)
  | created fees plan new a b c q ↦
      let after = record ledger { payments = ledger.payments ++ new } in
      let same : new ≡ ps = cc (sym (ap (λ r. r.0) q) ∙ h) in
      let there : existing_payments req after ≡ new =
        existing-after pack req ledger fees plan new a b c in
      let again : resolved pack req after ≡ ok (fees, plan) =
        resolved_same pack req ledger (ledger.payments ++ new) ∙ a in
      let some_there : is_empty (existing_payments req after) ≡ false =
        not_empty _ (λ n. some_row (sym same ∙ sym there ∙ n)) in
      let round : expand pack req after ≡ (ok (existing_payments req after), after) =
        unfold expand in simp (again, some_there) in
      subst (λ l. expand pack req l ≡ (ok ps, l)) (sym (ap (λ r. r.1) q))
        (round ∙ ap (λ r. (ok r, after)) (there ∙ same))
]
