-- ===== src/Access.antt =====
-- src/common/access.ts, src/iam/enums/platform-role.enum.ts and the store of
-- src/core/tenancy/tenant-context.ts: who is asking, how far a caller may see, and who may grant a
-- role. The async-local store of the source is the argument `store`.
pub mod Scope
pub mod Grant
mod Tests
use meru_core.Base.{
  ℕ, suc, String, Option, none, some, List, [], ◌∷◌, Bool, true, false, not, ◌&&◌, ◌||◌, ◌==◌, any,
  includes, leb, if◌then◌else◌,
}

abbrev pub platform_admin : String
platform_admin = "platform_admin"

abbrev pub firm_admin : String
firm_admin = "firm_admin"

abbrev pub staff : String
staff = "staff"

abbrev pub client : String
client = "client"

-- In descending privilege.
abbrev pub role_precedence : List String
role_precedence = platform_admin ∷ firm_admin ∷ staff ∷ client ∷ []

pub data BypassKind : Type 0 where
  system god : BypassKind

pub record Bypass : Type 0 where
  pub kind : BypassKind
  pub reason : String
  pub actor_id : Option String

pub record TenantStore : Type 0 where
  pub tenant_id : Option String
  pub bypass : Option Bypass

pub record Actor : Type 0 where
  pub id : String
  pub roles : List String
  pub email : Option String

pub data AccessScope : Type 0 where
  god tenant own : AccessScope

abbrev tenant_staff_roles : List String
tenant_staff_roles = firm_admin ∷ staff ∷ []

is_god : Option Bypass → Bool
is_god none = false
is_god (some b) = elim b.kind [ BypassKind.god ↦ true | BypassKind.system ↦ false ]

-- `store?.bypass?.kind === 'god'`; no store is `none`.
unfoldable pub is_god_context : Option TenantStore → Bool
unfolding is_god
is_god_context none = false
is_god_context (some s) = is_god s.bypass

unfoldable pub is_tenant_staff : List String → Bool
is_tenant_staff roles = any (includes tenant_staff_roles) roles

unfoldable pub is_client_only : List String → Bool
unfolding is_tenant_staff
is_client_only roles = includes roles client && not (is_tenant_staff roles)

unfoldable pub scope_of : Option TenantStore → Actor → AccessScope
scope_of store actor =
    if is_god_context store
    then AccessScope.god
    else if is_tenant_staff actor.roles
    then tenant
    else own

unfoldable pub has_tenant_wide_reach : Option TenantStore → Actor → Bool
has_tenant_wide_reach store actor = is_god_context store || is_tenant_staff actor.roles

abbrev pub system_actor : Actor
system_actor = record { id = "system"; roles = firm_admin ∷ []; email = none }

-- `findIndex`, its -1 as `none`
find_index : (String → Bool) → List String → ℕ → Option ℕ
find_index p [] i = none
find_index p (x ∷ xs) i = let rest = find_index p xs (suc i) in if p x then some i else rest

-- The test of a role's rank against the caller's.
at_or_below : Option ℕ → Option ℕ → Bool
at_or_below none target = false
at_or_below (some a) none = false
at_or_below (some a) (some t) = leb a t

unfoldable pub can_grant_role : List String → String → Bool
unfolding find_index at_or_below
can_grant_role actor_roles target =
    at_or_below (find_index (includes actor_roles) role_precedence 0)
      (find_index (λ r. r == target) role_precedence 0)
