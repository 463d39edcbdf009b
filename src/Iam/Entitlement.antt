-- ===== src/Iam/Entitlement.antt =====
-- src/iam/entitlements/module-entitlement.guard.ts and the codes of module-code.ts. A date is a count of
-- milliseconds.
use mathlib.Core.Bool.{false≢true}
use meru_core.Base.{
  ℕ, subst, ◌≢◌, Option-cases, find?-eq-some, In_of_All, if_elim, ◌+◌, String, Option, none, some,
  List, [], ◌∷◌, Bool, true, false, not, ◌==◌, ◌&&◌, if◌then◌else◌, ltb, filter, any, all, includes,
  is_empty, find?, Result, ok, err, ◌≡◌, refl, ◌↔◌, ◌⊎◌, inl, inr, Bool-cases, arith, All, eq_iff,
  ap, sym, ◌∙◌,
}

abbrev pub grc_module_codes : List String
grc_module_codes = "screening" ∷ "trade_finance" ∷ "vessel_tracking" ∷ []

-- `ModuleEntitlementException`
pub record PaymentRequired : Type 0 where
  pub missing_modules : List String
  pub granted_modules : List String

pub record Grant : Type 0 where
  pub tenant_id : String
  pub modules : Option (List String)
  pub expires : ℕ

-- The cache, and the modules of a tenant's settings, none where there is no list of them.
pub record GuardEnv : Type 0 where
  pub now : ℕ
  pub modules_of : String → Option (List String)

abbrev pub is_hit : ℕ → String → Grant → Bool
is_hit now tenant_id g = g.tenant_id == tenant_id && ltb now g.expires

abbrev pub read_through :
    GuardEnv → String → Option Grant → List Grant → Option (List String) × List Grant
read_through env tenant_id (some hit) cache = (hit.modules, cache)
read_through env tenant_id none cache = (
  env.modules_of tenant_id,
  (record { tenant_id = tenant_id; modules = env.modules_of tenant_id; expires = env.now + 60000 })
      ∷ filter (λ g. not (g.tenant_id == tenant_id)) cache,
)

-- A `Map` holds one entry of a key.
unfoldable pub grant_for : GuardEnv → String → List Grant → Option (List String) × List Grant
grant_for env tenant_id cache =
    read_through env tenant_id (find? (is_hit env.now tenant_id) cache) cache

abbrev pub missing_of : List String → List String → List String
missing_of required granted = filter (λ m. not (includes granted m)) required

-- A grant that lists no code of the extended vocabulary predates it.
abbrev pub enforced : List String → List String → Result PaymentRequired Bool
enforced required granted =
    if is_empty (missing_of required granted)
    then ok true
    else if all (includes grc_module_codes) (missing_of required granted)
        && not (any (includes grc_module_codes) granted)
    then ok true
    else err (record { missing_modules = missing_of required granted; granted_modules = granted })

abbrev pub checked : List String → Option (List String) → Result PaymentRequired Bool
checked required none = ok true
checked required (some granted) = enforced required granted

abbrev pub for_tenant :
    GuardEnv → List String → Option String → List Grant → Result PaymentRequired Bool × List Grant
for_tenant env required none cache = (ok true, cache)
for_tenant env required (some tenant_id) cache =
    let (granted, after) = grant_for env tenant_id cache in
    if tenant_id == "" then (ok true, cache) else (checked required granted, after)

-- The modules that a route asks for, and the tenant of the request.
unfoldable pub can_activate :
    GuardEnv → List String → Option String → List Grant → Result PaymentRequired Bool × List Grant
can_activate env [] tenant cache = (ok true, cache)
can_activate env (m ∷ ms) tenant cache = for_tenant env (m ∷ ms) tenant cache

-- A module that a grant includes, or that it predates: one of the extended vocabulary, of which the grant has
-- none.
abbrev pub IsIncluded : List String → String → Type 0
IsIncluded granted m =
    (includes granted m ≡ true)
    ⊎ ((includes grc_module_codes m ≡ true) × (any (includes grc_module_codes) granted ≡ false))

-- The cache holds what the settings say.
abbrev pub IsCurrent : GuardEnv → List Grant → Type 0
IsCurrent env cache = All (λ g. g.modules ≡ env.modules_of g.tenant_id) cache

module _ (granted : List String) where
  all_present :
      (required : List String)
      → is_empty (missing_of required granted) ≡ true
      → All (IsIncluded granted) required
  all_present [] h = tt
  all_present (m ∷ ms) h = elim (Bool-cases (includes granted m)) [
    | inl i ↦ (inl i, all_present ms (rw i at h))
    | inr i ↦ absurd (false≢true (rw i at h))
  ]

  all_older :
      (required : List String)
      → any (includes grc_module_codes) granted ≡ false
      → all (includes grc_module_codes) (missing_of required granted) ≡ true
      → All (IsIncluded granted) required
  all_older [] older h = tt
  all_older (m ∷ ms) older h = elim (Bool-cases (includes granted m)) [
    | inl i ↦ (inl i, all_older ms older (rw i at h))
    | inr i ↦
        let both : includes grc_module_codes m
              && all (includes grc_module_codes) (missing_of ms granted)
            ≡ true =
          rw i at h in
        (inr (ground arith, older), all_older ms older (ground arith))
  ]

  none_missing :
      (required : List String)
      → any (includes grc_module_codes) granted ≡ true
      → All (IsIncluded granted) required
      → is_empty (missing_of required granted) ≡ true
  none_missing [] newer a = refl
  none_missing (m ∷ ms) newer (inl i, rest) = rw i (none_missing ms newer rest)
  none_missing (m ∷ ms) newer (inr (g, older), rest) = absurd (false≢true (sym older ∙ newer))

  only_grc_missing :
      (required : List String)
      → All (IsIncluded granted) required
      → all (includes grc_module_codes) (missing_of required granted) ≡ true
  only_grc_missing [] a = refl
  only_grc_missing (m ∷ ms) (inl i, rest) = rw i (only_grc_missing ms rest)
  only_grc_missing (m ∷ ms) (inr (g, older), rest) = elim (Bool-cases (includes granted m)) [
    | inl i ↦ rw i (only_grc_missing ms rest)
    | inr i ↦ rw i (ground (arith, g, only_grc_missing ms rest))
  ]

  enforced_iff :
      (required : List String)
      → (enforced required granted ≡ ok true) ↔ All (IsIncluded granted) required
  enforced_iff required = (
    λ h. elim (Bool-cases (is_empty (missing_of required granted))) [
      | inl e ↦ all_present required e
      | inr e ↦ elim (Bool-cases (all (includes grc_module_codes) (missing_of required granted))) [
        | inl g ↦ elim (Bool-cases (any (includes grc_module_codes) granted)) [
          | inl newer ↦ absurd (err_is_not_ok (rw (e, g, newer) at h))
          | inr older ↦ all_older required older g
        ]
        | inr g ↦ absurd (err_is_not_ok (rw (e, g) at h))
      ]
    ],
    λ a. elim (Bool-cases (any (includes grc_module_codes) granted)) [
      | inl newer ↦ rw (none_missing required newer a) refl
      | inr older ↦
          rw (only_grc_missing required a, older) (either (is_empty (missing_of required granted)))
    ],
  )
    where
      err_is_not_ok :
          {e : PaymentRequired} → ◌≡◌ {A = Result PaymentRequired Bool} (err e) (ok true) → ⊥
      err_is_not_ok q = cc

      either :
          (b : Bool)
          → ◌≡◌ {A = Result PaymentRequired Bool} (if b then ok true else ok true) (ok true)
      either true = refl
      either false = refl

module _ (env : GuardEnv) (tenant_id : String) where
  grant_for-IsCurrent :
      (cache : List Grant)
      → IsCurrent env cache
      → ((grant_for env tenant_id cache).0 ≡ env.modules_of tenant_id)
        × IsCurrent env (grant_for env tenant_id cache).1
  unfolding grant_for
  grant_for-IsCurrent cache now_true =
      elim (Option-cases (find? (is_hit env.now tenant_id) cache)) [
        | inl e ↦ rw e (refl, (refl, kept cache now_true))
        | inr (g, e) ↦
            let (m, hit) = find?-eq-some (is_hit env.now tenant_id) cache g e in
            let own : g.tenant_id ≡ tenant_id = ground (arith, hit, eq_iff g.tenant_id tenant_id) in
            rw e (
              In_of_All (λ (x : Grant). x.modules ≡ env.modules_of x.tenant_id) cache now_true g m
                  ∙ ap env.modules_of own,
              now_true,
            )
      ]
    where
      kept :
          (gs : List Grant)
          → IsCurrent env gs
          → IsCurrent env (filter (λ g. not (g.tenant_id == tenant_id)) gs)
      kept [] a = tt
      kept (x ∷ xs) a =
          if_elim (IsCurrent env) (not (x.tenant_id == tenant_id))
            (x ∷ filter (λ g. not (g.tenant_id == tenant_id)) xs)
            (filter (λ g. not (g.tenant_id == tenant_id)) xs) (a.0, kept xs a.1) (kept xs a.1)

  -- A request of a tenant passes the guard exactly when the tenant's settings have no list of modules, or
  -- when each module that the route asks for is in that list or is one of the extended vocabulary and
  -- none of these is in the list; and the cache stays true to the settings. The settings have not
  -- changed since the cache was filled, and the tenant's id is not the empty text.
  pub can_activate_iff :
      (required : List String) (cache : List Grant)
      → tenant_id ≢ ""
      → IsCurrent env cache
      → (((can_activate env required (some tenant_id) cache).0 ≡ ok true) ↔ (
          (env.modules_of tenant_id ≡ none)
          ⊎ ((granted : List String) × (env.modules_of tenant_id ≡ some granted)
              × All (IsIncluded granted) required)))
        × IsCurrent env (can_activate env required (some tenant_id) cache).1
  unfolding can_activate
  can_activate_iff [] cache named now_true = (
    (
      λ _. elim (Option-cases (env.modules_of tenant_id)) [
        | inl e ↦ inl e
        | inr (granted, e) ↦ inr (granted, e, tt)
      ],
      λ _. refl,
    ),
    now_true,
  )
  can_activate_iff (m ∷ ms) cache named now_true =
      let (same, after) = grant_for-IsCurrent cache now_true in
      let other : tenant_id == "" ≡ false = ground (arith, eq_iff tenant_id "", named) in
      rw (other, same)
        (elim (Option-cases (env.modules_of tenant_id)) [
          | inl e ↦ rw e ((λ _. inl refl, λ _. refl), after)
          | inr (granted, e) ↦ rw e (
            (
              λ h. inr (granted, refl, (enforced_iff granted (m ∷ ms)).0 h),
              λ w. elim w [
                | inl n ↦ cc
                | inr (g, q, a) ↦
                    let own : granted ≡ g = cc in
                    (enforced_iff granted (m ∷ ms)).1
                      (subst (λ x. All (IsIncluded x) (m ∷ ms)) (sym own) a)
              ],
            ),
            after,
          )
        ])
