-- ===== src/Workflow/Engine/Terminal.antt =====
-- `transition` of src/workflow/workflow.service.ts on an instance that is not active.
use meru_core.Base.{
  String, some, List, [], ◌∷◌, ◌≡◌, ◌≢◌, sym, ap, ◌∙◌, ◌==◌, inl, inr, eq_iff, find?, In, In_of_All,
  All, Bool-cases, if_elim,
}
use meru_core.Workflow.Types.{InstanceStatus, WorkflowInstance, Db}
use meru_core.Workflow.Engine.Lookup.{Env}
use meru_core.Workflow.Engine.Gates.{TransitionRequest}
use meru_core.Workflow.Engine.Transition.{
  advance, update_where, commit, append_audit, audit_entry, transition,
}
use meru_core.Workflow.Engine.Prepare.{prepare-Passed}
use meru_core.Workflow.Engine.Commit.{
  transition-Ending, refused, orphaned, done_, transition_succeeds,
}

-- The id is the primary key of the table.
abbrev pub HasPrimaryKey : List WorkflowInstance → Type 0
HasPrimaryKey is = All (λ i. find? (λ j. j.id == i.id) is ≡ some i) is

In-update_where_ne :
    (id : String) (f : WorkflowInstance → WorkflowInstance) (is : List WorkflowInstance)
    (i : WorkflowInstance)
    → i.id ≢ id
    → In i is
    → In i (update_where id f is)
In-update_where_ne id f [] i h m = absurd m
In-update_where_ne id f (x ∷ is) i h (inl e) = inl (elim (Bool-cases (x.id == id)) [
  | inl hit ↦ absurd (h (ap (λ (j : WorkflowInstance). j.id) e ∙ (eq_iff x.id id).0 hit))
  | inr miss ↦ simp miss e
])
In-update_where_ne id f (x ∷ is) i h (inr m) = inr (In-update_where_ne id f is i h m)

-- An instance that is not active stays in the table as it is through every call of `transition`, if
-- the id is the primary key.
pub transition-not_active :
    (env : Env) (req : TransitionRequest) (db : Db) (i : WorkflowInstance)
    → HasPrimaryKey db.instances
    → In i db.instances
    → i.status ≢ InstanceStatus.active
    → In i (transition env req db).1.instances
transition-not_active env req db i key m closed = elim (transition-Ending env req db) [
  | refused e q ↦ rw q m
  | orphaned p q ↦ rw q m
  | done_ p w hp hw may ↦
      let passed = prepare-Passed env req db p hp in
      let by_key = In_of_All _ db.instances key in
      let row_of : i.id ≡ p.row.id → i ≡ p.row = λ same.
        let found : some i ≡ some p.row =
          sym (by_key i m)
          ∙ ap (λ (id : String). find? (λ j. j.id == id) db.instances) same
          ∙ by_key p.row passed.found.listed in
        cc found in
      let other : i.id ≢ p.row.id =
        λ same. closed (ap (λ (j : WorkflowInstance). j.status) (row_of same) ∙ passed.active) in
      let kept = In-update_where_ne p.row.id (advance env req p w) db.instances i other m in
      rw (transition_succeeds env req db p w hp hw may) (
        if_elim (λ (d : Db). In i d.instances) env.audit_works
          (append_audit (audit_entry req p) (commit env req p w db)) (commit env req p w db)
          (unfold commit in kept) (unfold commit in kept))
]
