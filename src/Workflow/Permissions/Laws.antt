-- ===== src/Workflow/Permissions/Laws.antt =====
-- When `checkPermissions` of src/workflow/workflow.service.ts permits a transition.
use meru_core.Base.{
  String, List, [], ◌∷◌, ◌≡◌, refl, ap, ◌↔◌, inl, inr, true, false, arith, any, is_empty, includes,
  includes_iff, any_sound, any_complete, Bool-cases,
}
use meru_core.Access.{role_precedence}
use meru_core.Workflow.Types.{Permissions}
use meru_core.Workflow.Permissions.{check_permissions, MayTake}

is_empty_iff : (xs : List String) → (is_empty xs ≡ true) ↔ (xs ≡ [])
is_empty_iff [] = (λ _. refl, λ _. refl)
is_empty_iff (x ∷ xs) = (λ e. cc, λ e. cc)

may_take :
    (p : Permissions) (user : String) (roles : List String)
    → check_permissions p user roles ≡ true
    → MayTake p user roles
unfolding check_permissions
may_take p user roles e = elim (Bool-cases (includes p.users user)) [
  | inl named ↦ inr (inl ((includes_iff p.users user).0 named))
  | inr unnamed ↦ elim (Bool-cases (is_empty p.roles)) [
    | inl bare ↦ inl ((is_empty_iff p.roles).0 bare, (is_empty_iff p.users).0 (ground arith))
    | inr some_role ↦ elim (Bool-cases (any (includes roles) p.roles)) [
      | inl holds ↦
          let (r, m, q) = any_sound (includes roles) p.roles holds in
          inr (inr (inl (r, m, (includes_iff roles r).0 q)))
      | inr lacks ↦
          let none_platform : any (includes role_precedence) p.roles ≡ false = ground arith in
          inr (
            inr (
              inr (
                λ e'. cc (ap is_empty e', some_role),
                λ r m k. cc (
                  any_complete (includes role_precedence) p.roles r m
                      ((includes_iff role_precedence r).1 k),
                  none_platform,
                ),
              )))
    ]
  ]
]

takes :
    (p : Permissions) (user : String) (roles : List String)
    → MayTake p user roles
    → check_permissions p user roles ≡ true
unfolding check_permissions
takes p user roles (inl (no_roles, no_users)) = rw (no_roles, no_users)
takes p user roles (inr (inl m)) = ground (arith, (includes_iff p.users user).1 m)
takes p user roles (inr (inr (inl (r, m, k)))) = ground (
  arith,
  any_complete (includes roles) p.roles r m ((includes_iff roles r).1 k),
  is_empty_iff p.roles,
)
takes p user roles (inr (inr (inr (some_role, foreign)))) =
    elim (Bool-cases (any (includes role_precedence) p.roles)) [
      | inl h ↦
          let (r, m, q) = any_sound (includes role_precedence) p.roles h in
          absurd (foreign r m ((includes_iff role_precedence r).0 q))
      | inr h ↦ ground (arith, is_empty_iff p.roles)
    ]

-- A transition is permitted exactly when it constrains nobody, or names the user, or requires a role
-- that the user holds, or requires roles none of which is a platform role.
pub check_permissions_iff :
    (p : Permissions) (user : String) (roles : List String)
    → (check_permissions p user roles ≡ true) ↔ MayTake p user roles
check_permissions_iff p user roles = (may_take p user roles, takes p user roles)
