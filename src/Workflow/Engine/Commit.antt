-- ===== src/Workflow/Engine/Commit.antt =====
-- How a call of `transition` in src/workflow/workflow.service.ts ends, and what it writes.
use meru_core.Base.{
  String, none, some, List, [], ◌∷◌, ◌≡◌, refl, sym, ap, ◌∙◌, subst, true, ◌&&◌, ◌==◌, ◌⊎◌, inl,
  inr, arith, find?, Result, ok, err, Result-cases, Bool-cases, Option-cases, if◌then◌else◌,
}
use meru_core.Workflow.Types.{Workflow, WorkflowInstance, Db}
use meru_core.Workflow.Engine.Lookup.{
  Error, type_error, audit_failed, Env, Loaded, load, has_id, find_instance,
}
use meru_core.Workflow.Engine.Gates.{TransitionRequest}
use meru_core.Workflow.Engine.Transition.{
  Prepared, prepare, advance, update_where, commit, audit_entry, append_audit, transition,
}
use meru_core.Workflow.Engine.Prepare.{Passed, prepare-Passed}

-- An update by id that keeps the ids: the row that is found is the updated one.
find?-update_where :
    (f : WorkflowInstance → WorkflowInstance) (id tenant_id : String)
    → ((i : WorkflowInstance) → (f i).id ≡ i.id)
    → ((i : WorkflowInstance) → (f i).tenant_id ≡ i.tenant_id)
    → (is : List WorkflowInstance) (i : WorkflowInstance) → find? (has_id id tenant_id) is ≡ some i
    → find? (has_id id tenant_id) (update_where id f is) ≡ some (f i)
find?-update_where f id tenant_id kid kten [] i e = cc
find?-update_where f id tenant_id kid kten (x ∷ is) i e =
    let same_test : has_id id tenant_id (f x) ≡ has_id id tenant_id x =
      λ k. (kid x k == id) && (kten x k == tenant_id) in
    elim (Bool-cases (x.id == id)) [
      | inl same ↦ elim (Bool-cases (x.tenant_id == tenant_id)) [
        | inl ours ↦
            let hit : some x ≡ some i = rw (same, ours) at e in
            let here : x ≡ i = cc in simp (same, same_test, ours) (ap some (ap f here))
        | inr theirs ↦
            simp (same, same_test, theirs)
              (find?-update_where f id tenant_id kid kten is i (rw (same, theirs) at e))
      ]
      | inr other ↦ simp other (find?-update_where f id tenant_id kid kten is i (rw other at e))
    ]

-- The row and the tables after a transition: one entry is added to the audit trail if it can be.
abbrev pub settled : Env → TransitionRequest → Prepared → Workflow → Db → Db
settled env req p w db =
    if env.audit_works
    then append_audit (audit_entry req p) (commit env req p w db)
    else commit env req p w db

module _ (env : Env) (req : TransitionRequest) (db : Db) (p : Prepared) (w : Workflow) where
  reload :
      Passed env req db p
      → (audit : Db) → audit.instances ≡ db.instances
      → find_instance p.row.id req.tenant_id (commit env req p w audit)
        ≡ ok (load (commit env req p w audit) (advance env req p w p.row))
  unfolding find_instance commit
  reload h audit same =
      let first : find? (has_id p.row.id req.tenant_id) audit.instances ≡ some p.row =
        subst
          (λ (is : List WorkflowInstance). find? (has_id p.row.id req.tenant_id) is ≡ some p.row)
          (sym same)
          (subst (λ (id : String). find? (has_id id req.tenant_id) db.instances ≡ some p.row)
            (sym h.found.has_its_id) h.found.first) in
      rw (
        find?-update_where (advance env req p w) p.row.id req.tenant_id
          (unfold advance in λ i. refl) (unfold advance in λ i. refl) audit.instances p.row first)

-- An automated transition is recorded first; a human one is not held to it.
abbrev pub MayProceed : Env → TransitionRequest → Type 0
MayProceed env req = (req.automated ≡ none) ⊎ (env.audit_works ≡ true)

-- A transition that passes every gate takes place: its result is the instance with the columns of the
-- update, and the tables are those after it, whether or not a human one's audit entry can be written.
pub transition_succeeds :
    (env : Env) (req : TransitionRequest) (db : Db) (p : Prepared) (w : Workflow)
    → prepare env req db ≡ ok p
    → p.workflow ≡ some w
    → MayProceed env req
    → transition env req db
      ≡ (ok (load (commit env req p w db) (advance env req p w p.row)), settled env req p w db)
unfolding transition
transition_succeeds env req db p w e has_w may =
    let h = prepare-Passed env req db p e in
    elim (Option-cases req.automated) [
      | inl human ↦ elim (Bool-cases env.audit_works) [
        | inl works ↦ simp (e, human, has_w, reload env req db p w h db refl, works)
        | inr fails ↦ simp (e, human, has_w, reload env req db p w h db refl, fails)
      ]
      | inr (job, automated) ↦
          let works : env.audit_works ≡ true = ground arith in
          simp
            (
              e,
              automated,
              works,
              has_w,
              reload env req db p w h (append_audit (audit_entry req p) db) refl,
            )
            (unfold commit in refl)
    ]

-- How a call of `transition` can end.
pub data Ending (env : Env) (req : TransitionRequest) (db : Db) : Type 0 where
  refused : (e : Error) → transition env req db ≡ (err e, db) → Ending env req db
  orphaned :
      (p : Prepared)
      → transition env req db ≡ (err type_error, append_audit (audit_entry req p) db)
      → Ending env req db
  done_ :
      (p : Prepared) (w : Workflow)
      → prepare env req db ≡ ok p
      → p.workflow ≡ some w
      → MayProceed env req
      → Ending env req db

pub transition-Ending : (env : Env) (req : TransitionRequest) (db : Db) → Ending env req db
transition-Ending env req db = elim (Result-cases (prepare env req db)) [
  | inl (e, h) ↦ refused e (unfold transition in simp h)
  | inr (p, h) ↦ elim (Option-cases p.workflow) [
    | inl lost ↦ elim (Option-cases req.automated) [
      | inl human ↦ refused type_error (unfold transition in simp (h, human, lost))
      | inr (job, automated) ↦ elim (Bool-cases env.audit_works) [
        | inl works ↦ orphaned p (unfold transition in simp (h, automated, works, lost))
        | inr fails ↦ refused audit_failed (unfold transition in simp (h, automated, fails))
      ]
    ]
    | inr (w, kept) ↦ elim (Option-cases req.automated) [
      | inl human ↦ done_ p w h kept (inl human)
      | inr (job, automated) ↦ elim (Bool-cases env.audit_works) [
        | inl works ↦ done_ p w h kept (inr works)
        | inr fails ↦ refused audit_failed (unfold transition in simp (h, automated, fails))
      ]
    ]
  ]
]

-- A transition that throws has changed no instance and run no action.
pub transition_fails_unchanged :
    (env : Env) (req : TransitionRequest) (db : Db) (e : Error)
    → (transition env req db).0 ≡ err e
    → ((transition env req db).1.instances ≡ db.instances)
      × ((transition env req db).1.executed ≡ db.executed)
transition_fails_unchanged env req db e h = elim (transition-Ending env req db) [
  | refused x q ↦ (ap (λ r. r.1.instances) q, ap (λ r. r.1.executed) q)
  | orphaned p q ↦ (ap (λ r. r.1.instances) q, ap (λ r. r.1.executed) q)
  | done_ p w hp hw may ↦
      let s = ap (λ r. r.0) (transition_succeeds env req db p w hp hw may) in cc (s, h)
]

-- What a transition that returns has established.
pub record Committed (env : Env) (req : TransitionRequest) (db : Db) (l : Loaded) (db' : Db)
    : Type 0 where
  pub prepared : Prepared
  pub workflow : Workflow
  pub passed : Passed env req db prepared
  pub may : MayProceed env req
  pub row : l.row ≡ advance env req prepared workflow prepared.row
  pub tables : db' ≡ settled env req prepared workflow db

-- A transition that returns a row has passed every gate (the instance is active, its choice is usable,
-- permitted, signed off and paid), could be recorded if automated, returns the row with the columns
-- of the update, and leaves the tables as `settled` has them.
pub transition-Committed :
    (env : Env) (req : TransitionRequest) (db : Db) (l : Loaded)
    → (transition env req db).0 ≡ ok l
    → Committed env req db l (transition env req db).1
transition-Committed env req db l h = elim (transition-Ending env req db) [
  | refused x q ↦ cc (ap (λ r. r.0) q, h)
  | orphaned p q ↦ cc (ap (λ r. r.0) q, h)
  | done_ p w hp hw may ↦
      let s = transition_succeeds env req db p w hp hw may in
      let same : ◌≡◌ {A = Result Error Loaded}
          (ok (load (commit env req p w db) (advance env req p w p.row))) (ok l) =
        sym (ap (λ r. r.0) s) ∙ h in
      let loaded : load (commit env req p w db) (advance env req p w p.row) ≡ l = cc same in
      record {
        prepared = p;
        workflow = w;
        passed = prepare-Passed env req db p hp;
        may = may;
        row = sym (ap (λ (x : Loaded). x.row) loaded);
        tables = ap (λ r. r.1) s;
      }
]
