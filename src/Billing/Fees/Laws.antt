-- ===== src/Billing/Fees/Laws.antt =====
-- What an override of src/billing/fee-schedule.service.ts can change.
use meru_core.Base.{
  String, some, List, [], ◌∷◌, ◌≡◌, refl, sym, ap, ◌∙◌, subst, true, ◌&&◌, ◌==◌, ◌⊎◌, inl, inr,
  arith, eq_iff, is_empty, includes, filter, map, In, In-filter_iff, In-of_map, Bool-cases,
  Option-cases,
}
use meru_core.Billing.Types.{FeeDefinition, FeeOverride, Ledger}
use meru_core.Billing.Fees.{fee_by_key, override_by_key, is_firm, override, with_overrides, fees_of}

override_by_key-eq-some :
    (key : String) (os : List FeeOverride) (o : FeeOverride)
    → override_by_key key os ≡ some o
    → In o os × (o.fee_key ≡ key)
unfolding override_by_key
override_by_key-eq-some key [] o e = cc
override_by_key-eq-some key (x ∷ os) o e = elim (Option-cases (override_by_key key os)) [
  | inr (found, h) ↦
      let (m, k) = override_by_key-eq-some key os found h in
      let same : found ≡ o = cc (simp h at e) in
      subst (λ (y : FeeOverride). In y (x ∷ os) × (y.fee_key ≡ key)) same (inr m, k)
  | inl h ↦ elim (Bool-cases (x.fee_key == key)) [
    | inl hit ↦
        let same : x ≡ o = cc (simp (h, hit) at e) in
        subst (λ (y : FeeOverride). In y (x ∷ os) × (y.fee_key ≡ key)) same
          (inl refl, (eq_iff x.fee_key key).0 hit)
    | inr miss ↦ cc (simp (h, miss) at e)
  ]
]

-- What a fee can become: itself, or, if it is the firm's own, the same fee at the amount and in the
-- currency of an active override of the tenant under its key.
pub data Quoted (tenant_id : String) (ledger : Ledger) (f g : FeeDefinition) : Type 0 where
  as_packed : g ≡ f → Quoted tenant_id ledger f g
  overridden :
      (o : FeeOverride)
      → is_firm f ≡ true
      → In o ledger.overrides
      → o.tenant_id ≡ tenant_id
      → o.active ≡ true
      → o.fee_key ≡ f.key
      → g ≡ record f { amount_minor = o.amount_minor; currency = o.currency }
      → Quoted tenant_id ledger f g

override-Quoted :
    (tenant_id : String) (ledger : Ledger) (firm_keys : List String) (f : FeeDefinition)
    → Quoted tenant_id ledger f (
        override
          (filter
            (λ o. o.tenant_id == tenant_id && (includes firm_keys o.fee_key && o.active))
            ledger.overrides)
          f)
unfolding override
override-Quoted tenant_id ledger firm_keys f =
    let test =
      λ (o : FeeOverride). o.tenant_id == tenant_id && (includes firm_keys o.fee_key && o.active) in
    elim (Bool-cases (is_firm f)) [
      | inr other ↦ as_packed (simp other)
      | inl firm ↦ elim (Option-cases (override_by_key f.key (filter test ledger.overrides))) [
        | inl nothing ↦ as_packed (simp (firm, nothing))
        | inr (o, h) ↦
            let (m, k) = override_by_key-eq-some f.key (filter test ledger.overrides) o h in
            let (n, q) = (In-filter_iff test ledger.overrides o).0 m in
            overridden o firm n ((eq_iff o.tenant_id tenant_id).0 (ground arith)) (ground arith) k
              (simp (firm, h))
      ]
    ]

-- A quoted fee is a fee of the pack, or a firm's own fee of the pack at the amount and in the currency
-- of an active override of this tenant under its key, and nothing else of it differs.
pub with_overrides-Quoted :
    (tenant_id : String) (ledger : Ledger) (fees : List FeeDefinition) (g : FeeDefinition)
    → In g (with_overrides tenant_id ledger fees)
    → (f : FeeDefinition) × In f fees × Quoted tenant_id ledger f g
unfolding with_overrides
with_overrides-Quoted tenant_id ledger fees g m =
    let firm_keys = map (λ (f : FeeDefinition). f.key) (filter is_firm fees) in
    let overrides =
      filter
        (λ (o : FeeOverride).
          o.tenant_id == tenant_id && (includes firm_keys o.fee_key && o.active))
        ledger.overrides in
    elim (Bool-cases (is_empty firm_keys)) [
      | inl no_firm ↦ (g, simp no_firm at m, as_packed refl)
      | inr firm ↦ elim (Bool-cases (is_empty overrides)) [
        | inl no_override ↦ (g, simp (firm, no_override) at m, as_packed refl)
        | inr some_override ↦
            let (f, n, q) =
              In-of_map (override overrides) fees g (simp (firm, some_override) at m) in
            (
              f,
              n,
              subst (Quoted tenant_id ledger f) (sym q)
                  (override-Quoted tenant_id ledger firm_keys f),
            )
      ]
    ]

Quoted-key :
    (tenant_id : String) (ledger : Ledger) (f g : FeeDefinition)
    → Quoted tenant_id ledger f g
    → g.key ≡ f.key
Quoted-key tenant_id ledger f g (as_packed e) = ap (λ (x : FeeDefinition). x.key) e
Quoted-key tenant_id ledger f g (overridden o firm m t a k e) = ap (λ (x : FeeDefinition). x.key) e

fee_by_key-key :
    (key : String) (fs : List FeeDefinition) (f : FeeDefinition)
    → fee_by_key key fs ≡ some f
    → f.key ≡ key
unfolding fee_by_key
fee_by_key-key key [] f e = cc
fee_by_key-key key (x ∷ fs) f e = elim (Option-cases (fee_by_key key fs)) [
  | inr (found, h) ↦
      let same : found ≡ f = cc (simp h at e) in
      ap (λ (x : FeeDefinition). x.key) (sym same) ∙ fee_by_key-key key fs found h
  | inl h ↦ elim (Bool-cases (x.key == key)) [
    | inl hit ↦
        let same : x ≡ f = cc (simp (h, hit) at e) in
        ap (λ (x : FeeDefinition). x.key) (sym same) ∙ (eq_iff x.key key).0 hit
    | inr miss ↦ cc (simp (h, miss) at e)
  ]
]

fees_of-key :
    (ks : List String) (all : List FeeDefinition) (f : FeeDefinition)
    → In f (fees_of ks all)
    → In f.key ks
unfolding fees_of
fees_of-key [] all f m = absurd m
fees_of-key (k ∷ ks) all f m = elim (Option-cases (fee_by_key k all)) [
  | inl h ↦ inr (fees_of-key ks all f (rw h at m))
  | inr (g, h) ↦
      let n : (f ≡ g) ⊎ In f (fees_of ks all) = rw h at m in
      elim n [
        | inl same ↦ inl (ap (λ (x : FeeDefinition). x.key) same ∙ fee_by_key-key k all g h)
        | inr n ↦ inr (fees_of-key ks all f n)
      ]
]

-- The fees that are quoted for a list of keys have keys of the list.
pub quoted-key :
    (tenant_id : String) (ledger : Ledger) (ks : List String) (all : List FeeDefinition)
    (g : FeeDefinition)
    → In g (with_overrides tenant_id ledger (fees_of ks all))
    → In g.key ks
quoted-key tenant_id ledger ks all g m =
    let (f, n, q) = with_overrides-Quoted tenant_id ledger (fees_of ks all) g m in
    subst (λ k. In k ks) (sym (Quoted-key tenant_id ledger f g q)) (fees_of-key ks all f n)
