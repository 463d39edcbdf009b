-- ===== src/Billing/Expand/Laws.antt =====
-- How a call of `expand` of src/billing/fee-schedule.service.ts ends.
use meru_core.Base.{
  String, Option, List, [], ◌∷◌, ◌++◌, ◌≡◌, ◌≢◌, refl, sym, ap, ◌∙◌, subst, true, inl, inr,
  is_empty, map, In, Bool-cases, Result, ok, err, Result-cases, >>=-eq-ok, guard, get_or, leb,
  length,
}
use meru_core.Workflow.Types.{Payment}
use meru_core.Billing.Types.{
  FeeDefinition, PaymentPlanDefinition, ExpandRequest, Ledger, Pack, BillingError, mixed_currencies,
}
use meru_core.Billing.Expand.{
  existing_payments, rows, new_rows, resolved, expand, distinct, client_of,
}
use meru_core.Billing.Expand.Rows.{charged, owed, rows-charged, IsExpansionOf, rows-of}

is_empty-eq : (ps : List Payment) → is_empty ps ≡ true → ps ≡ []
is_empty-eq [] e = refl
is_empty-eq (p ∷ ps) e = cc e

-- How an expansion can end.
pub data Ending (pack : Pack) (req : ExpandRequest) (ledger : Ledger) : Type 0 where
  refused : (e : BillingError) → expand pack req ledger ≡ (err e, ledger) → Ending pack req ledger
  repeated :
      existing_payments req ledger ≢ []
      → expand pack req ledger ≡ (ok (existing_payments req ledger), ledger)
      → Ending pack req ledger
  created :
      (fees : List FeeDefinition) (plan : Option PaymentPlanDefinition) (ps : List Payment)
      → resolved pack req ledger ≡ ok (fees, plan)
      → existing_payments req ledger ≡ []
      → new_rows pack req fees plan ledger ≡ ok ps
      → expand pack req ledger ≡ (ok ps, record ledger { payments = ledger.payments ++ ps })
      → Ending pack req ledger

pub expand-Ending : (pack : Pack) (req : ExpandRequest) (ledger : Ledger) → Ending pack req ledger
expand-Ending pack req ledger = elim (Result-cases (resolved pack req ledger)) [
  | inl (e, h) ↦ refused e (unfold expand in simp h)
  | inr ((fees, plan), h) ↦ elim (Bool-cases (is_empty (existing_payments req ledger))) [
    | inr some_exist ↦
        repeated (λ q. cc (ap is_empty q, some_exist)) (unfold expand in simp (h, some_exist))
    | inl none_exist ↦ elim (Result-cases (new_rows pack req fees plan ledger)) [
      | inl (e, k) ↦ refused e (unfold expand in simp (h, none_exist, k))
      | inr (ps, k) ↦
          created fees plan ps h (is_empty-eq (existing_payments req ledger) none_exist) k
            (unfold expand in simp (h, none_exist, k))
    ]
  ]
]

-- An expansion that throws has written nothing.
pub expand_fails_unchanged :
    (pack : Pack) (req : ExpandRequest) (ledger : Ledger) (e : BillingError)
    → (expand pack req ledger).0 ≡ err e
    → (expand pack req ledger).1 ≡ ledger
expand_fails_unchanged pack req ledger e h = elim (expand-Ending pack req ledger) [
  | refused x q ↦ ap (λ r. r.1) q
  | repeated x q ↦ ap (λ r. r.1) q
  | created fees plan ps a b c q ↦ let s = ap (λ r. r.0) q in cc (s, h)
]

pub new_rows-rows :
    (pack : Pack) (req : ExpandRequest) (fees : List FeeDefinition)
    (plan : Option PaymentPlanDefinition) (ledger : Ledger) (ps : List Payment)
    → new_rows pack req fees plan ledger ≡ ok ps
    → (user_id : String) × (rows pack req user_id plan (get_or req.start_date pack.now) fees
        ≡ ok ps)
unfolding new_rows
new_rows-rows pack req fees plan ledger ps e =
    let currencies = distinct [] (map (λ (f : FeeDefinition). pack.to_upper f.currency) fees) in
    let (_, _, e1) =
      >>=-eq-ok (guard (leb (length currencies) 1) (mixed_currencies currencies)) _ e in
    let (user_id, _, e2) = >>=-eq-ok (client_of pack req ledger) _ e1 in (user_id, e2)

-- An expansion that creates rows: nothing of the fees had been charged to the record; what it returns
-- is what it adds to the ledger; the rows sum to what the fees cost, and each is of the tenant, of the
-- record and of one of the fees.
pub record Fresh (pack : Pack) (req : ExpandRequest) (ledger : Ledger) (ps : List Payment)
    (after : Ledger) : Type 0 where
  pub fees : List FeeDefinition
  pub plan : Option PaymentPlanDefinition
  pub asked : resolved pack req ledger ≡ ok (fees, plan)
  pub nothing_before : existing_payments req ledger ≡ []
  pub sum : charged ps ≡ owed req fees
  pub all_of : (p : Payment) → In p ps → IsExpansionOf req fees p
  pub added : after ≡ record ledger { payments = ledger.payments ++ ps }

-- What a successful expansion of a request returns.
pub data Outcome (pack : Pack) (req : ExpandRequest) (ledger : Ledger) (ps : List Payment)
    : Type 0 where
  kept :
      existing_payments req ledger ≢ []
      → ps ≡ existing_payments req ledger
      → (expand pack req ledger).1 ≡ ledger
      → Outcome pack req ledger ps
  charged_now : Fresh pack req ledger ps (expand pack req ledger).1 → Outcome pack req ledger ps

-- A successful expansion either returns the payments that exist for these fees and writes nothing, or,
-- when there are none, adds rows that sum to what the fees cost, each of the tenant, the record and
-- one of the fees, and returns them.
pub expand-Outcome :
    (pack : Pack) (req : ExpandRequest) (ledger : Ledger) (ps : List Payment)
    → (expand pack req ledger).0 ≡ ok ps
    → Outcome pack req ledger ps
expand-Outcome pack req ledger ps h = elim (expand-Ending pack req ledger) [
  | refused x q ↦ let s = ap (λ r. r.0) q in cc (s, h)
  | repeated x q ↦ let s = sym h ∙ ap (λ r. r.0) q in kept x (cc s) (ap (λ r. r.1) q)
  | created fees plan new a b c q ↦
      let s : ◌≡◌ {A = Result BillingError (List Payment)} (ok new) (ok ps) =
        sym (ap (λ r. r.0) q) ∙ h in
      let same : new ≡ ps = cc s in
      let (user_id, d) = new_rows-rows pack req fees plan ledger new c in
      let start = get_or req.start_date pack.now in
      charged_now (
        subst (λ x. Fresh pack req ledger x (expand pack req ledger).1) same
          (record {
            fees = fees;
            plan = plan;
            asked = a;
            nothing_before = b;
            sum = rows-charged pack req user_id plan start fees new d;
            all_of = λ p m. rows-of pack req user_id plan start fees new p d m;
            added = ap (λ r. r.1) q;
          }))
]
