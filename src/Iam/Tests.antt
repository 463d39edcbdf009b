-- ===== src/Iam/Tests.antt =====
-- A tenant of the extended vocabulary and one from before it.
use meru_core.Base.{
  ◌≡◌, ◌≢◌, refl, ◌↔◌, ◌⊎◌, String, List, [], ◌∷◌, none, some, ok, true, All, arith, eq_iff,
  if◌then◌else◌, ◌==◌,
}
use meru_core.Iam.Entitlement.{
  GuardEnv, Grant, grant_for, can_activate, IsIncluded, IsCurrent, can_activate_iff,
}

abbrev settings : GuardEnv
settings = record {
  now = 1000;
  modules_of = λ t. if t == "bank" then some ("crm" ∷ "screening" ∷ []) else some ("crm" ∷ []);
}

abbrev filled : List Grant
filled =
    (record { tenant_id = "bank"; modules = some ("crm" ∷ "screening" ∷ []); expires = 5000 }) ∷ []

id_is_text : ◌≢◌ {A = String} "bank" ""
id_is_text = ground (arith, eq_iff "bank" "")

older_grant_passes : (can_activate settings ("vessel_tracking" ∷ []) (some "visa") []).0 ≡ ok true
unfolding can_activate grant_for
older_grant_passes = refl

can_activate_iff_example :
    (((can_activate settings ("vessel_tracking" ∷ []) (some "bank") filled).0 ≡ ok true) ↔ (
      (settings.modules_of "bank" ≡ none)
      ⊎ ((granted : List String) × (settings.modules_of "bank" ≡ some granted)
          × All (IsIncluded granted) ("vessel_tracking" ∷ []))))
    × IsCurrent settings (can_activate settings ("vessel_tracking" ∷ []) (some "bank") filled).1
can_activate_iff_example =
    can_activate_iff settings "bank" ("vessel_tracking" ∷ []) filled id_is_text (refl, tt)
