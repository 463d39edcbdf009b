-- ===== src/Crm/Reach.antt =====
-- src/crm/crm-access.service.ts. The lower case of a trimmed text is a parameter twice, as the program and
-- as the database compute it.
use meru_core.Base.{
  String, Option, none, some, Bool, true, false, not, ◌==◌, ◌&&◌, ◌||◌, if◌then◌else◌, Result, ok,
  err, ◌≡◌, ◌≢◌, refl, ap, arith, eq_iff, Bool-cases, inl, inr,
}
use meru_core.Access.{Actor, TenantStore, has_tenant_wide_reach}
use meru_core.Workflow.Types.{Entity}

pub data CrmAction : Type 0 where
  read write delete : CrmAction

pub data CrmRefusal : Type 0 where
  entity_not_found : CrmRefusal
  no_permission : CrmAction → CrmRefusal

pub record CrmEnv : Type 0 where
  pub store : Option TenantStore
  pub trim_lower : String → String
  pub sql_trim_lower : String → String

abbrev pub is_assignee : Option String → String → Bool
is_assignee none id = false
is_assignee (some a) id = not (a == "") && a == id

abbrev pub same_email : (String → String) → Option String → Option String → Bool
same_email norm (some a) (some s) = not (norm a == "") && not (norm s == "") && norm a == norm s
same_email norm _ _ = false

unfoldable pub owns_record : CrmEnv → Entity → Actor → Bool
owns_record env e actor =
    is_assignee e.assigned_to actor.id || same_email env.trim_lower actor.email e.subject_email

abbrev pub is_read : CrmAction → Bool
is_read read = true
is_read _ = false

unfoldable pub can_access : CrmEnv → Entity → Actor → CrmAction → Bool
can_access env e actor action =
    has_tenant_wide_reach env.store actor || (is_read action && owns_record env e actor)

unfoldable pub assert_access : CrmEnv → Entity → Actor → CrmAction → Result CrmRefusal (Unit {0})
assert_access env e actor action =
    if can_access env e actor action
    then ok tt
    else if can_access env e actor read
    then err (no_permission action)
    else err entity_not_found

-- A column that equals a text: NULL equals none.
abbrev pub equals_column : Option String → String → Bool
equals_column none s = false
equals_column (some t) s = t == s

abbrev pub equals_lower : CrmEnv → Option String → String → Bool
equals_lower env none s = false
equals_lower env (some t) s = env.sql_trim_lower t == s

abbrev pub own_clause : CrmEnv → Option String → Actor → Entity → Bool
own_clause env none actor e = equals_column e.assigned_to actor.id
own_clause env (some mail) actor e =
    if env.trim_lower mail == ""
    then equals_column e.assigned_to actor.id
    else equals_column e.assigned_to actor.id
      || equals_lower env e.subject_email (env.trim_lower mail)

-- The condition that `applyScope` adds to a query, as a test of a row.
unfoldable pub apply_scope : CrmEnv → Actor → Entity → Bool
apply_scope env actor e =
    has_tenant_wide_reach env.store actor || own_clause env actor.email actor e

unfoldable pub may_read_internal_notes : CrmEnv → Actor → Bool
may_read_internal_notes env actor = has_tenant_wide_reach env.store actor

-- A row that the two ways of writing an address agree on.
abbrev pub IsAgreed : CrmEnv → Option String → Type 0
IsAgreed env none = Unit
IsAgreed env (some s) = env.sql_trim_lower s ≡ env.trim_lower s

same_assignee : (a : Option String) (id : String) → id ≢ "" → equals_column a id ≡ is_assignee a id
same_assignee none id h = refl
same_assignee (some a) id h = elim (Bool-cases (a == id)) [
  | inl e ↦ let same : a ≡ id = (eq_iff a id).0 e in ground (arith, e, h, same, eq_iff a "")
  | inr e ↦ ground (arith, e)
]

same_texts :
    (a b : String) → (a == "") ≡ false → (b == a) ≡ (not (a == "") && not (b == "") && a == b)
same_texts a b h = elim (Bool-cases (b == a)) [
  | inl e ↦ let same : b ≡ a = (eq_iff b a).0 e in rw (same, h) (ground (arith, eq_iff a a))
  | inr e ↦ ground (arith, e, eq_iff a b, eq_iff b a)
]

same_subject :
    (env : CrmEnv) (mail : String) (o : Option String)
    → (env.trim_lower mail == "") ≡ false
    → IsAgreed env o
    → equals_lower env o (env.trim_lower mail) ≡ same_email env.trim_lower (some mail) o
same_subject env mail none h agreed = refl
same_subject env mail (some s) h agreed =
    rw agreed (same_texts (env.trim_lower mail) (env.trim_lower s) h)

no_address :
    (env : CrmEnv) (mail : String) (o : Option String)
    → (env.trim_lower mail == "") ≡ true
    → same_email env.trim_lower (some mail) o ≡ false
no_address env mail none h = refl
no_address env mail (some s) h = rw h refl

same_clause :
    (env : CrmEnv) (mail : Option String) (actor : Actor) (e : Entity)
    → actor.id ≢ ""
    → IsAgreed env e.subject_email
    → own_clause env mail actor e
      ≡ (is_assignee e.assigned_to actor.id || same_email env.trim_lower mail e.subject_email)
same_clause env none actor e h agreed = ground (arith, same_assignee e.assigned_to actor.id h)
same_clause env (some mail) actor e h agreed = elim (Bool-cases (env.trim_lower mail == "")) [
  | inl b ↦ rw b (
      ground (arith, same_assignee e.assigned_to actor.id h, no_address env mail e.subject_email b))
  | inr b ↦ rw b (
      ground (
        arith,
        same_assignee e.assigned_to actor.id h,
        same_subject env mail e.subject_email b agreed,
      ))
]

-- The rows that `applyScope` leaves in a query are those that the caller could read one by one, for a
-- caller with an id and a row whose address the program and the database normalise alike.
pub apply_scope-can_access :
    (env : CrmEnv) (actor : Actor) (e : Entity)
    → actor.id ≢ ""
    → IsAgreed env e.subject_email
    → apply_scope env actor e ≡ can_access env e actor read
unfolding apply_scope can_access owns_record
apply_scope-can_access env actor e h agreed =
    ap (λ b. has_tenant_wide_reach env.store actor || b)
      (same_clause env actor.email actor e h agreed)
