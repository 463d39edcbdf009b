-- ===== src/Workflow/Permissions.antt =====
-- `checkPermissions` of src/workflow/workflow.service.ts: who may take a transition.
pub mod Laws
use meru_core.Base.{
  String, List, [], ◌∷◌, ◌≡◌, ◌≢◌, ◌↔◌, ◌⊎◌, inl, inr, Bool, true, false, not, ◌&&◌, ◌||◌,
  if◌then◌else◌, any, is_empty, includes, In, arith, All, includes_iff, any_sound, any_complete,
  Bool-cases, refl,
}
use meru_core.Access.{role_precedence}
use meru_core.Workflow.Types.{Permissions}

-- `Object.values(PlatformRole)` is the list of precedence.
unfoldable pub check_permissions : Permissions → String → List String → Bool
check_permissions p user_id user_roles =
    if is_empty p.roles && is_empty p.users
    then true
    else if includes p.users user_id
    then true
    else if is_empty p.roles
    then false
    else if any (includes user_roles) p.roles
    then true
    else not (any (includes role_precedence) p.roles)

-- A transition is permitted to an actor exactly when it constrains nobody, or names the actor, or
-- requires a role that the actor holds, or requires roles none of which is a platform role.
abbrev pub MayTake : Permissions → String → List String → Type 0
MayTake p user_id user_roles =
    ((p.roles ≡ []) × (p.users ≡ []))
    ⊎ In user_id p.users
    ⊎ ((r : String) × In r p.roles × In r user_roles)
    ⊎ ((p.roles ≢ []) × ((r : String) → In r p.roles → ¬ In r role_precedence))
