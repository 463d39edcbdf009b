-- ===== src/Access/Grant.antt =====
-- `canGrantRole` of src/iam/enums/platform-role.enum.ts: who may grant which role.
use mathlib.Core.Path.{fun_ext, subst}
use meru_core.Base.{
  ℕ, String, Option, List, [], ◌∷◌, ◌≡◌, true, ◌==◌, arith, eq_iff, In, includes, includes_iff,
}
use meru_core.Access.{role_precedence, find_index, at_or_below, can_grant_role, platform_admin}

includes-singleton : (target r : String) → includes (target ∷ []) r ≡ (r == target)
includes-singleton target r = ground (arith, eq_iff target r, eq_iff r target)

at_or_below_trans :
    (a t f : Option ℕ) → at_or_below a t ≡ true → at_or_below t f ≡ true → at_or_below a f ≡ true
unfolding at_or_below
at_or_below_trans a t f h k = ground arith

-- Granting cannot widen reach: whoever receives a role from a caller can grant, by that role, only
-- what the caller could grant.
pub can_grant_role_trans :
    (actors : List String) (target further : String)
    → can_grant_role actors target ≡ true
    → can_grant_role (target ∷ []) further ≡ true
    → can_grant_role actors further ≡ true
unfolding can_grant_role
can_grant_role_trans actors target further h k =
    at_or_below_trans (find_index (includes actors) role_precedence 0)
      (find_index (λ r. r == target) role_precedence 0)
      (find_index (λ r. r == further) role_precedence 0) h
      (subst
        (λ p.
          at_or_below (find_index p role_precedence 0)
            (find_index (λ r. r == further) role_precedence 0)
          ≡ true)
        (fun_ext (includes-singleton target)) k)

-- Only a holder of `platform_admin` can grant `platform_admin`.
pub platform_admin-of-can_grant_role :
    (actors : List String) → can_grant_role actors platform_admin ≡ true → In platform_admin actors
unfolding can_grant_role
platform_admin-of-can_grant_role actors h = (includes_iff actors platform_admin).0 (ground arith)
