-- ===== src/Workflow/Engine/Invariant.antt =====
-- The invariant of the instances of src/workflow/workflow.service.ts.
use meru_core.Base.{
  String, none, some, List, [], ◌∷◌, ◌++◌, ◌≡◌, refl, sym, ap, ◌∙◌, subst, true, ◌==◌, ◌⊎◌, inl,
  inr, arith, eq_iff, All-of_In, is_some, false, find?, find?-eq-some, In, In_of_All, All, ok,
  Result-cases, >>=-eq-ok, from_option, from_option-eq-ok, guard, Bool-cases, Fields, if_elim,
  In-filter_iff,
}
use meru_core.Workflow.Types.{
  InstanceStatus, Workflow, WorkflowState, WorkflowInstance, HistoryEntry, Db,
}
use meru_core.Workflow.Engine.Lookup.{
  Env, same_status, find_state, no_start_state, workflow_not_active, get_workflow,
}
use meru_core.Workflow.Engine.Gates.{TransitionRequest}
use meru_core.Workflow.Engine.Start.{
  start_workflow, startable, new_instance, is_start, is_active_workflow, states_of,
}
use meru_core.Workflow.Engine.Transition.{
  Prepared, is_end, advance, update_where, commit, new_entry, append_audit, audit_entry, transition,
}
use meru_core.Workflow.Engine.Prepare.{Passed, prepare-Passed}
use meru_core.Workflow.Engine.Commit.{
  transition-Ending, refused, orphaned, done_, transition_succeeds,
}

-- A history in which every step leaves the state that the one before entered, and the last enters
-- `name`.
abbrev pub Linked : List HistoryEntry → String → Type 0
Linked [] name = Unit
Linked (e ∷ []) name = e.to_state ≡ name
Linked (e ∷ f ∷ h) name = (e.to_state ≡ f.from_state) × Linked (f ∷ h) name

Linked-append :
    (h : List HistoryEntry) (name : String) (e : HistoryEntry)
    → Linked h name
    → e.from_state ≡ name
    → Linked (h ++ e ∷ []) e.to_state
Linked-append [] name e l q = refl
Linked-append (f ∷ []) name e l q = (l ∙ sym q, refl)
Linked-append (f ∷ g ∷ h) name e l q = (l.0, Linked-append (g ∷ h) name e l.1 q)

-- An instance is in a state of the tables; it is completed, and its completion is dated, exactly when
-- that is an end state; its history leads to that state.
pub record IsConsistent (states : List WorkflowState) (i : WorkflowInstance) : Type 0 where
  pub state : WorkflowState
  pub in_state : find_state states i.current_state_id ≡ some state
  pub status : same_status i.status InstanceStatus.completed ≡ is_end state.type
  pub dated : is_some i.completed_at ≡ is_end state.type
  pub history : Linked i.history state.name

-- An instance that has just entered a state: in it since now, completed now if it is an end state and
-- else active, and not escalated.
pub record HasEntered (env : Env) (states : List WorkflowState) (i : WorkflowInstance)
    : Type 0 where
  pub entered : WorkflowState
  pub in_entered : find_state states i.current_state_id ≡ some entered
  pub since : i.state_entered_at ≡ some env.now
  pub completed :
      is_end entered.type ≡ true
      → (i.status ≡ InstanceStatus.completed) × (i.completed_at ≡ some env.now)
  pub goes_on :
      is_end entered.type ≡ false → (i.status ≡ InstanceStatus.active) × (i.completed_at ≡ none)
  pub not_escalated : i.escalation_level ≡ 0

abbrev pub AllConsistent : Db → Type 0
AllConsistent db = All (IsConsistent db.states) db.instances

advance-IsConsistent :
    (env : Env) (req : TransitionRequest) (db : Db) (p : Prepared) (w : Workflow)
    (i : WorkflowInstance)
    → Passed env req db p
    → IsConsistent db.states p.row
    → IsConsistent db.states (advance env req p w i)
unfolding advance new_entry
advance-IsConsistent env req db p w i h c =
    let same : c.state ≡ p.old_state = cc (c.in_state, h.leaves) in
    let entered : p.new_state.id ≡ p.transition.to_state_id =
      (eq_iff p.new_state.id p.transition.to_state_id).0
        (find?-eq-some (λ s. s.id == p.transition.to_state_id) db.states p.new_state h.enters).1 in
    record {
      state = p.new_state;
      in_state =
          subst (λ (id : String). find_state db.states id ≡ some p.new_state) (sym entered)
            h.enters;
      status = elim (Bool-cases (is_end p.new_state.type)) [
        | inl ends ↦ rw ends refl
        | inr goes ↦ rw goes refl
      ];
      dated = elim (Bool-cases (is_end p.new_state.type)) [
        | inl ends ↦ rw ends refl
        | inr goes ↦ rw goes refl
      ];
      history =
          Linked-append p.row.history c.state.name _ c.history
            (ap (λ (s : WorkflowState). s.name) (sym same));
    }

update_where-All :
    (P : WorkflowInstance → Type 0) (id : String) (f : WorkflowInstance → WorkflowInstance)
    → ((i : WorkflowInstance) → P (f i))
    → (is : List WorkflowInstance) → All P is
    → All P (update_where id f is)
update_where-All P id f keeps [] h = tt
update_where-All P id f keeps (i ∷ is) h = (
  elim (Bool-cases (i.id == id)) [ inl hit ↦ rw hit (keeps i) | inr miss ↦ rw miss h.0 ],
  update_where-All P id f keeps is h.1,
)

advance-HasEntered :
    (env : Env) (req : TransitionRequest) (db : Db) (p : Prepared) (w : Workflow)
    (i : WorkflowInstance)
    → Passed env req db p
    → HasEntered env db.states (advance env req p w i)
unfolding advance
advance-HasEntered env req db p w i h =
    let found : p.new_state.id ≡ p.transition.to_state_id =
      (eq_iff p.new_state.id p.transition.to_state_id).0
        (find?-eq-some (λ s. s.id == p.transition.to_state_id) db.states p.new_state h.enters).1 in
    record {
      entered = p.new_state;
      in_entered =
          subst (λ (id : String). find_state db.states id ≡ some p.new_state) (sym found) h.enters;
      since = refl;
      completed = λ ends. rw ends (refl, refl);
      goes_on = λ goes. rw goes (refl, refl);
      not_escalated = refl;
    }

-- A row of before, or one that has just entered its state.
abbrev pub OldOrEntered : Env → Db → WorkflowInstance → Type 0
OldOrEntered env db i = In i db.instances ⊎ HasEntered env db.states i

-- A call of `transition`, whether it returns or throws, keeps every instance consistent: completed, with a
-- dated completion, exactly in an end state, at the end of its history. Each instance after it is one of
-- before, unchanged, or has just entered its state: since now, completed now if that is an end state and else
-- active and undated, and no longer escalated.
pub transition-AllConsistent :
    (env : Env) (req : TransitionRequest) (db : Db)
    → AllConsistent db
    → AllConsistent (transition env req db).1
      × All (OldOrEntered env db) (transition env req db).1.instances
transition-AllConsistent env req db h =
    let same : All (OldOrEntered env db) db.instances = All-of_In db.instances (λ i m. inl m) in
    elim (transition-Ending env req db) [
      | refused e q ↦ rw q (h, same)
      | orphaned p q ↦ rw q (h, same)
      | done_ p w hp hw may ↦
          let passed = prepare-Passed env req db p hp in
          let own = In_of_All (IsConsistent db.states) db.instances h p.row passed.found.listed in
          let all =
            update_where-All (IsConsistent db.states) p.row.id (advance env req p w)
              (λ i. advance-IsConsistent env req db p w i passed own) db.instances h in
          let moved =
            update_where-All (OldOrEntered env db) p.row.id (advance env req p w)
              (λ i. inr (advance-HasEntered env req db p w i passed)) db.instances same in
          rw (transition_succeeds env req db p w hp hw may) (
            if_elim (λ (d : Db). AllConsistent d × All (OldOrEntered env db) d.instances)
              env.audit_works (append_audit (audit_entry req p) (commit env req p w db))
              (commit env req p w db) (unfold commit in (all, moved))
              (unfold commit in (all, moved)))
    ]

-- The states of the tables have ids of their own.
abbrev pub HasOwnIds : List WorkflowState → Type 0
HasOwnIds states = All (λ s. find_state states s.id ≡ some s) states

startable-is_start :
    (workflow_id tenant_id : String) (db : Db) (w : Workflow) (s : WorkflowState)
    → startable workflow_id tenant_id db ≡ ok (w, s)
    → In s db.states × (is_start s.type ≡ true)
unfolding startable
startable-is_start workflow_id tenant_id db w s e =
    let (v, ev, e1) = >>=-eq-ok (get_workflow workflow_id tenant_id db) _ e in
    let (_, ea, e2) = >>=-eq-ok (guard (is_active_workflow v.status) workflow_not_active) _ e1 in
    let (t, et, e3) =
      >>=-eq-ok
        (from_option no_start_state (find? (λ x. is_start x.type) (states_of db.states v.id))) _
        e2 in
    let same : t ≡ s = cc e3 in
    let (m, q) =
      find?-eq-some (λ x. is_start x.type) (states_of db.states v.id) t
        (from_option-eq-ok no_start_state _ et) in
    subst (λ x. In x db.states × (is_start x.type ≡ true)) same
      (((In-filter_iff _ db.states t).0 m).0, q)

new_instance-IsConsistent :
    (env : Env) (w : Workflow) (s : WorkflowState) (entity_id entity_type user_id : String)
    (context : Fields) (db : Db)
    → find_state db.states s.id ≡ some s
    → is_start s.type ≡ true
    → IsConsistent db.states (new_instance env w s entity_id entity_type user_id context db.issued)
unfolding new_instance
new_instance-IsConsistent env w s entity_id entity_type user_id context db own starts = record {
  state = s;
  in_state = own;
  status = ground arith;
  dated = ground arith;
  history = tt;
}

-- Starting a workflow, whether it returns or throws, keeps every instance consistent, if the states
-- of the tables have ids of their own.
pub start_workflow-AllConsistent :
    (env : Env) (workflow_id entity_id entity_type tenant_id user_id : String) (context : Fields)
    (db : Db)
    → HasOwnIds db.states
    → AllConsistent db
    → AllConsistent
        (start_workflow env workflow_id entity_id entity_type tenant_id user_id context db).1
start_workflow-AllConsistent env workflow_id entity_id entity_type tenant_id user_id context db ids
      h =
    elim (Result-cases (startable workflow_id tenant_id db)) [
      | inl (e, q) ↦ unfold start_workflow in rw q h
      | inr ((w, s), q) ↦
          unfold start_workflow in
          rw q (
            new_instance-IsConsistent env w s entity_id entity_type user_id context db
                (In_of_All _ db.states ids s (startable-is_start workflow_id tenant_id db w s q).0)
                (startable-is_start workflow_id tenant_id db w s q).1,
            h,
          )
    ]
