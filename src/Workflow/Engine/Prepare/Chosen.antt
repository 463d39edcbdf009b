-- ===== src/Workflow/Engine/Prepare/Chosen.antt =====
-- The transition that `transition` in src/workflow/workflow.service.ts chooses, by its id or
-- automatically.
use meru_core.Base.{
  String, Option, none, some, List, [], ◌∷◌, ◌≡◌, sym, ap, ◌∙◌, subst, true, ◌⊎◌, inl, inr, arith,
  eq_iff, In, In-filter_iff, find?-eq-some, ok, >>=-eq-ok, from_option-eq-ok, from_option,
  Bool-cases, Option-cases, Fields, pos,
}
use meru_core.Workflow.Types.{WorkflowTransition, WorkflowInstance, Db}
use meru_core.Workflow.Conditions.{evaluate_conditions}
use meru_core.Workflow.Engine.Lookup.{Env, present, no_valid_transition, type_error}
use meru_core.Workflow.Engine.Gates.{
  filter_available, compute_available, is_explicit, is_automatic, choose_automatic,
  choose_transition,
}

-- What `filter_available` keeps is a row whose condition holds.
pub filter_available_sound :
    (env : Env) (context : Fields) (ts kept : List WorkflowTransition)
    → filter_available env context ts ≡ ok kept
    → (t : WorkflowTransition) → In t kept
    → In t ts × (evaluate_conditions env.runtime (pos env.now) t.conditions context ≡ some true)
unfolding filter_available
filter_available_sound env context [] kept e t m =
    let none_left : [] ≡ kept = cc e in absurd (subst (In t) (sym none_left) m)
filter_available_sound env context (u ∷ ts) kept e t m =
    let (b, eb, e') =
      >>=-eq-ok
        (from_option type_error
          (evaluate_conditions env.runtime (pos env.now) u.conditions context))
        _ e in
    let holds =
      from_option-eq-ok type_error
        (evaluate_conditions env.runtime (pos env.now) u.conditions context) eb in
    let (rest, er, e'') = >>=-eq-ok (filter_available env context ts) _ e' in
    let deeper = filter_available_sound env context ts rest er t in
    elim (Bool-cases b) [
      | inl yes_ ↦
          let kept_too : u ∷ rest ≡ kept = cc (rw yes_ at e'') in
          elim (subst (In t) (sym kept_too) m) [
            | inl same ↦ (inl same, rw same (holds ∙ ap some yes_))
            | inr n ↦ let (k, q) = deeper n in (inr k, q)
          ]
      | inr no_ ↦
          let kept_not : rest ≡ kept = cc (rw no_ at e'') in
          let (k, q) = deeper (subst (In t) (sym kept_not) m) in (inr k, q)
    ]

-- The transition that is chosen leaves the instance's state and is active; one that is not named by
-- the request is automatic, and its condition holds.
pub record IsChosen (env : Env) (wanted : Option String) (i : WorkflowInstance) (db : Db)
    (t : WorkflowTransition) : Type 0 where
  pub listed : In t db.transitions
  pub leaves : t.from_state_id ≡ i.current_state_id
  pub usable : t.is_active ≡ true
  pub how :
      ((id : String) × (present wanted ≡ some id) × (t.id ≡ id))
      ⊎ ((present wanted ≡ none)
          × (is_automatic t.type ≡ true)
          × (evaluate_conditions env.runtime (pos env.now) t.conditions i.context ≡ some true))

pub choose_automatic_sound :
    (env : Env) (i : WorkflowInstance) (db : Db) (t : WorkflowTransition)
    → choose_automatic env i db ≡ ok t
    → In t db.transitions
      × (t.from_state_id ≡ i.current_state_id)
      × (t.is_active ≡ true)
      × (is_automatic t.type ≡ true)
      × (evaluate_conditions env.runtime (pos env.now) t.conditions i.context ≡ some true)
unfolding choose_automatic compute_available
choose_automatic_sound env i db t e =
    let (available, ea, e') = >>=-eq-ok (compute_available env i db) _ e in
    let (m, auto) =
      find?-eq-some (λ u. is_automatic u.type) available t
        (from_option-eq-ok no_valid_transition _ e') in
    let (k, holds) = filter_available_sound env i.context _ available ea t m in
    let (listed, q) = (In-filter_iff _ db.transitions t).0 k in
    (
      listed,
      ground (arith, eq_iff t.workflow_id i.workflow_id, eq_iff t.from_state_id i.current_state_id),
      ground (arith, eq_iff t.workflow_id i.workflow_id, eq_iff t.from_state_id i.current_state_id),
      auto,
      holds,
    )

pub choose_transition-IsChosen :
    (env : Env) (wanted : Option String) (i : WorkflowInstance) (db : Db) (t : WorkflowTransition)
    → choose_transition env wanted i db ≡ ok t
    → IsChosen env wanted i db t
unfolding choose_transition
choose_transition-IsChosen env wanted i db t e = elim (Option-cases (present wanted)) [
  | inl unnamed ↦
      let (listed, leaves, usable, auto, holds) =
        choose_automatic_sound env i db t (rw (unnamed, choose_transition) at e) in
      record { listed = listed; leaves = leaves; usable = usable; how = inr (unnamed, auto, holds) }
  | inr (id, naming) ↦
      let (listed, q) =
        find?-eq-some (is_explicit id i) db.transitions t
          (from_option-eq-ok no_valid_transition _ (rw (naming, choose_transition) at e)) in
      record {
        listed = listed;
        leaves = ground (arith, eq_iff t.id id, eq_iff t.from_state_id i.current_state_id);
        usable = ground (arith, eq_iff t.id id, eq_iff t.from_state_id i.current_state_id);
        how = inl (id, naming, ground (arith, eq_iff t.id id));
      }
]
