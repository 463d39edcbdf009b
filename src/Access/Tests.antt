-- ===== src/Access/Tests.antt =====
-- The theorems on access at concrete callers.
use meru_core.Base.{none, some, [], ◌∷◌, ◌≡◌, refl, true}
use meru_core.Access.{
  firm_admin, staff, client, Actor, god, scope_of, is_god_context, can_grant_role, BypassKind,
  TenantStore,
}

abbrev mallory : Actor
mallory = record { id = "u1"; roles = client ∷ []; email = none }

abbrev god_store : TenantStore
god_store = record {
  tenant_id = none;
  bypass = some (record { kind = BypassKind.god; reason = "incident"; actor_id = some "ops" });
}

scope_of_god : scope_of (some god_store) mallory ≡ god
unfolding scope_of is_god_context
scope_of_god = refl

firm_admin_grants_staff : can_grant_role (firm_admin ∷ []) staff ≡ true
unfolding can_grant_role
firm_admin_grants_staff = refl
