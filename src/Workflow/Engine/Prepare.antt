-- ===== src/Workflow/Engine/Prepare.antt =====
-- What the gates of `transition` in src/workflow/workflow.service.ts establish.
pub mod Rows
pub mod Chosen
use meru_core.Base.{
  String, Option, none, some, List, [], ◌∷◌, ◌≡◌, ◌≢◌, refl, sym, ap, ◌∙◌, subst, true, false, ◌&&◌,
  ◌==◌, ◌⊎◌, inl, inr, arith, eq_iff, find?, In, In-filter_iff, find?-eq-some, is_empty, ok,
  >>=-eq-ok, guard-eq-ok, from_option-eq-ok, from_option, guard, Bool-cases, Option-cases, Fields,
  pos,
}
use meru_core.Workflow.Types.{
  InstanceStatus, WorkflowTransition, WorkflowInstance, SignOff, User, Db,
}
use meru_core.Workflow.Permissions.{check_permissions}
use meru_core.Workflow.Conditions.{evaluate_conditions}
use meru_core.Workflow.Engine.Lookup.{
  Env, Loaded, present, same_status, no_valid_transition, type_error, instance_not_active,
  insufficient_permissions, load, has_id, find_state, find_instance,
}
use meru_core.Workflow.Engine.Gates.{
  TransitionRequest, filter_available, compute_available, is_explicit, is_automatic,
  choose_automatic, choose_transition, sign_off, arrears_blocking, check_arrears,
}
use meru_core.Workflow.Engine.Transition.{Prepared, prepare}
use meru_core.Workflow.Engine.Prepare.Rows.{
  Found, Found-load, find_instance-Found, IsSigned, sign_off-IsSigned,
}
use meru_core.Workflow.Engine.Prepare.Chosen.{
  filter_available_sound, IsChosen, choose_automatic_sound, choose_transition-IsChosen,
}

is_empty-eq-true {ℓ} : {A : Type ℓ} (xs : List A) → is_empty xs ≡ true → xs ≡ []
is_empty-eq-true [] h = refl
is_empty-eq-true (x ∷ xs) h = cc

-- Everything that `transition` checks before it writes.
pub record Passed (env : Env) (req : TransitionRequest) (db : Db) (p : Prepared) : Type 0 where
  pub found : Found req.instance_id req.tenant_id db (load db p.row)
  pub active : p.row.status ≡ InstanceStatus.active
  pub workflow : p.workflow ≡ (load db p.row).workflow
  pub chosen : IsChosen env req.transition_id p.row db p.transition
  pub permitted : check_permissions p.transition.permissions req.user_id req.user_roles ≡ true
  pub signed :
      (p.transition.permissions.requires_sign_off ≡ false)
      ⊎ ((s : SignOff) × (p.signer ≡ some s) × IsSigned req p.row db s)
  pub leaves : find_state db.states p.row.current_state_id ≡ some p.old_state
  pub paid :
      arrears_blocking
        (env.plans p.row.vertical)
        p.row.tenant_id
        p.row.entity_id
        p.old_state.name
        db.payments
      ≡ []
  pub enters : find_state db.states p.transition.to_state_id ≡ some p.new_state

same_status_active :
    (s : InstanceStatus) → same_status s InstanceStatus.active ≡ true → s ≡ InstanceStatus.active
same_status_active InstanceStatus.active h = refl
same_status_active _ h = cc

-- What is prepared has passed every gate: the instance is found by id and tenant and is active, the
-- transition is the chosen one and permitted, a required sign-off carries the actor's credential, no
-- payment blocks the step, and the states left and entered are those of the tables.
pub prepare-Passed :
    (env : Env) (req : TransitionRequest) (db : Db) (p : Prepared)
    → prepare env req db ≡ ok p
    → Passed env req db p
unfolding prepare check_arrears
prepare-Passed env req db p e =
    let (l, el, e1) = >>=-eq-ok (find_instance req.instance_id req.tenant_id db) _ e in
    let (_, ea, e2) =
      >>=-eq-ok (guard (same_status l.row.status InstanceStatus.active) instance_not_active) _ e1 in
    let (t, et, e3) = >>=-eq-ok (choose_transition env req.transition_id l.row db) _ e2 in
    let (_, ep, e4) =
      >>=-eq-ok
        (guard (check_permissions t.permissions req.user_id req.user_roles)
          insufficient_permissions)
        _ e3 in
    let (signer, es, e5) = >>=-eq-ok (sign_off req l.row t.permissions db) _ e4 in
    let (old, eo, e6) = >>=-eq-ok (from_option type_error l.current_state) _ e5 in
    let (_, ear, e7) = >>=-eq-ok (check_arrears env l.row old db) _ e6 in
    let (new, en, e8) =
      >>=-eq-ok (from_option type_error (find_state db.states t.to_state_id)) _ e7 in
    let found = find_instance-Found req.instance_id req.tenant_id db l el in
    let q : Prepared = record {
      row = l.row;
      workflow = l.workflow;
      old_state = old;
      new_state = new;
      transition = t;
      signer = signer;
    } in
    let same : q ≡ p = cc e8 in
    subst (Passed env req db) same (record {
      found = Found-load _ _ db l.row found.first;
      active = same_status_active l.row.status (guard-eq-ok _ _ ea);
      workflow = ap (λ (x : Loaded). x.workflow) found.joined;
      chosen = choose_transition-IsChosen env req.transition_id l.row db t et;
      permitted = guard-eq-ok _ _ ep;
      signed = elim (Bool-cases t.permissions.requires_sign_off) [
        | inl needed ↦ inr (sign_off-IsSigned req l.row t db signer es needed)
        | inr free ↦ inl free
      ];
      leaves =
          sym (ap (λ (x : Loaded). x.current_state) found.joined)
          ∙ from_option-eq-ok type_error l.current_state eo;
      paid = is_empty-eq-true _ (guard-eq-ok _ _ ear);
      enters = from_option-eq-ok type_error _ en;
    })

-- A transition whose condition is closed is not available; named by its id, it is chosen all the same.
pub choose_transition_closed :
    (env : Env) (wanted : Option String) (id : String) (i : WorkflowInstance) (db : Db)
    (t : WorkflowTransition) (available : List WorkflowTransition)
    → present wanted ≡ some id
    → find? (is_explicit id i) db.transitions ≡ some t
    → evaluate_conditions env.runtime (pos env.now) t.conditions i.context ≡ some false
    → compute_available env i db ≡ ok available
    → (choose_transition env wanted i db ≡ ok t) × ¬ In t available
unfolding choose_transition compute_available
choose_transition_closed env wanted id i db t available named row closed e = (
  rw (named, choose_transition) (rw row),
  λ m. cc ((filter_available_sound env i.context _ available e t m).1, closed),
)
