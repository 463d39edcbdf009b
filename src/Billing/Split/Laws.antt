-- ===== src/Billing/Split/Laws.antt =====
-- The sum of the portions of `split`, and its failures, in src/billing/fee-schedule.service.ts.
use native.Mathlib.Nat.{div-mul-le_self, mul-add}
use meru_core.Base.{
  ℕ, zero, suc, ◌+◌, ◌-◌, ◌*◌, ◌/◌, ◌≤◌, ◌≡◌, refl, sym, ap, ◌∙◌, ◌≢◌, ◌↔◌, Option, none, some,
  List, [], ◌∷◌, inl, inr, arith, nat_eq, get_or, Bool-cases, ok, err,
}
use meru_core.Billing.Types.{
  FeeDefinition, PlanType, upfront, installments, stage_gated, Stage, PaymentPlanDefinition,
  BillingError, stages_not_whole,
}
use meru_core.Billing.Split.{
  Portion, at_least_one, instalments_from, staged, total_bps, split_stages, split_instalments,
  split_as, split,
}

abbrev pub total : List Portion → ℕ
total [] = 0
total (p ∷ ps) = p.amount_minor + total ps

module _ (fee : FeeDefinition) (base remainder count start interval : ℕ) where
  later_total :
      (i left : ℕ)
      → total (instalments_from fee base remainder count start interval (suc i) left) ≡ base * left
  unfolding instalments_from
  later_total i zero = ground arith
  later_total i (suc left) = ground (arith, later_total (suc i) left, mul-add base left 1)

  all_total :
      (left : ℕ)
      → total (instalments_from fee base remainder count start interval 0 (suc left))
        ≡ base * suc left + remainder
  unfolding instalments_from
  all_total left = ground (arith, later_total 0 left, mul-add base left 1)

instalments-total :
    (fee : FeeDefinition) (amount start interval count : ℕ)
    → count ≢ 0
    → total (split_instalments fee amount start interval count) ≡ amount
instalments-total fee amount start interval zero h = absurd (h refl)
instalments-total fee amount start interval (suc n) h = elim (Bool-cases (nat_eq (suc n) 1)) [
  | inl one ↦ rw one (ground arith)
  | inr many ↦
      let all =
        all_total fee (amount / suc n) (amount - amount / suc n * suc n) (suc n) start interval n in
      let fits = div-mul-le_self amount (suc n) in rw many (ground (arith, all, fits))
]

-- What has been allocated leaves the shares of the stages to come.
staged-total :
    (fee : FeeDefinition) (amount allocated : ℕ) (s : Stage) (stages : List Stage)
    → allocated * 10000 + amount * total_bps (s ∷ stages) ≤ amount * 10000
    → allocated + total (staged fee amount allocated (s ∷ stages)) ≡ amount
unfolding staged
staged-total fee amount allocated s [] h = ground arith
staged-total fee amount allocated s (t ∷ stages) h =
    let share = div-mul-le_self (amount * s.portion_bps) 10000 in
    let spread = mul-add amount s.portion_bps (total_bps (t ∷ stages)) in
    let rest =
      staged-total fee amount (allocated + amount * s.portion_bps / 10000) t stages
        (ground (arith, h, share, spread)) in
    ground (arith, rest)

split_stages-total :
    (fee : FeeDefinition) (amount : ℕ) (plan : PaymentPlanDefinition) (stages : List Stage)
    (ps : List Portion)
    → split_stages fee amount plan stages ≡ ok ps
    → total ps ≡ amount
split_stages-total fee amount plan [] ps e = ground arith
split_stages-total fee amount plan (s ∷ stages) ps e =
    elim (Bool-cases (nat_eq (total_bps (s ∷ stages)) 10000)) [
      | inl whole ↦
          let same : staged fee amount 0 (s ∷ stages) ≡ ps = ground arith in
          let sum : total_bps (s ∷ stages) ≡ 10000 = ground arith in
          let all = staged-total fee amount 0 s stages (ground (arith, ap (λ n. amount * n) sum)) in
          sym (ap total same) ∙ ground (arith, all)
      | inr part ↦ ground arith
    ]

at_least_one_ne : (n : ℕ) → at_least_one n ≢ 0
at_least_one_ne n = ground arith

split_as-total :
    (fee : FeeDefinition) (amount : ℕ) (plan : PaymentPlanDefinition) (start : ℕ) (t : PlanType)
    (ps : List Portion)
    → split_as fee amount plan start t ≡ ok ps
    → total ps ≡ amount
split_as-total fee amount plan start upfront ps e = ground arith
split_as-total fee amount plan start installments ps e =
    let count = at_least_one (get_or plan.installment_count 1) in
    let interval = get_or plan.interval_days 30 in
    let same : split_instalments fee amount start interval count ≡ ps = cc e in
    sym (ap total same)
    ∙ instalments-total fee amount start interval count
        (at_least_one_ne (get_or plan.installment_count 1))
split_as-total fee amount plan start stage_gated ps e =
    split_stages-total fee amount plan (get_or plan.stages []) ps e

-- Whatever the plan, the portions of a fee sum to its amount exactly.
pub split-total :
    (fee : FeeDefinition) (amount : ℕ) (plan : Option PaymentPlanDefinition) (start : ℕ)
    (ps : List Portion)
    → split fee amount plan start ≡ ok ps
    → total ps ≡ amount
unfolding split
split-total fee amount none start ps e = ground arith
split-total fee amount (some plan) start ps e =
    split_as-total fee amount plan start (get_or plan.type upfront) ps e

split_stages-eq-err_iff :
    (fee : FeeDefinition) (amount : ℕ) (plan : PaymentPlanDefinition) (stages : List Stage)
    → ((e : BillingError) × (split_stages fee amount plan stages ≡ err e))
      ↔ ((stages ≢ []) × (total_bps stages ≢ 10000))
split_stages-eq-err_iff fee amount plan [] = (λ w. cc (w.1), λ w. absurd (w.0 refl))
split_stages-eq-err_iff fee amount plan (s ∷ stages) =
    elim (Bool-cases (nat_eq (total_bps (s ∷ stages)) 10000)) [
      | inl whole ↦ (λ w. let (e, q) = w in cc (rw whole at q), λ w. absurd (w.1 (ground arith)))
      | inr part ↦ (
        λ w. (λ q. cc (q), λ q. ground arith),
        λ w. (stages_not_whole plan.key (total_bps (s ∷ stages)), rw part refl),
      )
    ]

split_as-eq-err_iff :
    (fee : FeeDefinition) (amount : ℕ) (plan : PaymentPlanDefinition) (start : ℕ) (t : PlanType)
    → ((e : BillingError) × (split_as fee amount plan start t ≡ err e)) ↔ (
        (t ≡ stage_gated)
        × (get_or plan.stages [] ≢ [])
        × (total_bps (get_or plan.stages []) ≢ 10000))
split_as-eq-err_iff fee amount plan start upfront = (λ w. cc (w.1), λ w. cc (w.0))
split_as-eq-err_iff fee amount plan start installments = (λ w. cc (w.1), λ w. cc (w.0))
split_as-eq-err_iff fee amount plan start stage_gated =
    let r = split_stages-eq-err_iff fee amount plan (get_or plan.stages []) in
    (λ w. let (a, b) = r.0 w in (refl, a, b), λ w. let (a, b, c) = w in r.1 (b, c))

-- A split under a plan fails exactly when the plan is of stages, has some, and their shares do not sum
-- to 10000 basis points.
pub split-eq-err_iff :
    (fee : FeeDefinition) (amount : ℕ) (plan : PaymentPlanDefinition) (start : ℕ)
    → ((e : BillingError) × (split fee amount (some plan) start ≡ err e)) ↔ (
        (get_or plan.type upfront ≡ stage_gated)
        × (get_or plan.stages [] ≢ [])
        × (total_bps (get_or plan.stages []) ≢ 10000))
unfolding split
split-eq-err_iff fee amount plan start =
    split_as-eq-err_iff fee amount plan start (get_or plan.type upfront)
