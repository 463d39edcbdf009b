-- ===== src/Access/Scope.antt =====
-- `scopeOf` and `hasTenantWideReach` of src/common/access.ts, the two ways to ask how far a caller
-- sees.
use meru_core.Base.{Option, ◌≡◌, ◌≢◌, ◌↔◌, true, arith}
use meru_core.Access.{Actor, TenantStore, own, scope_of, has_tenant_wide_reach}

-- The boolean predicate and the scope agree: a caller has tenant-wide reach exactly when the scope is
-- not `own`.
pub has_tenant_wide_reach_iff :
    (store : Option TenantStore) (actor : Actor)
    → (has_tenant_wide_reach store actor ≡ true) ↔ (scope_of store actor ≢ own)
unfolding has_tenant_wide_reach scope_of
has_tenant_wide_reach_iff store actor = ground arith
