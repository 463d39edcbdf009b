-- ===== src/Pack/Create/Accepts.antt =====
-- Which definitions `createWorkflow` of src/workflow/workflow.service.ts accepts.
use meru_core.Base.{
  ℕ, suc, ◌+◌, String, Option, none, some, List, [], ◌∷◌, ◌≡◌, refl, sym, ap, ◌∙◌, true, ◌↔◌, arith,
  map, length, is_some, includes, includes_iff, In, All, ok, >>=-eq-ok, from_option,
  from_option-eq-ok,
}
use meru_core.Workflow.Types.{Workflow, WorkflowState, WorkflowTransition, Db}
use meru_core.Workflow.Engine.Lookup.{invalid_transition, Env}
use meru_core.Pack.Definition.{StateDef, TransitionDef, WorkflowDefinition}
use meru_core.Pack.Create.{
  state_rows, state_named, transition_row, transition_rows, workflow_row, create_workflow,
}
use meru_core.Pack.Create.Laws.{rolled_back, inserted, create_workflow-Creation}

abbrev pub names : List StateDef → List String
names ds = map (λ d. d.name) ds

state_named-some :
    (env : Env) (id name : String) (n : ℕ) (ds : List StateDef)
    → is_some (state_named name (state_rows env id n ds)) ≡ includes (names ds) name
unfolding state_named state_rows
state_named-some env id name n [] = refl
state_named-some env id name n (d ∷ ds) = ground (arith, state_named-some env id name (suc n) ds)

-- Both ends of a transition are among the states.
abbrev pub IsLinked : List String → TransitionDef → Type 0
IsLinked names t = In t.from names × In t.to names

is_some-cases : {A : Type 0} (o : Option A) → is_some o ≡ true → (a : A) × (o ≡ some a)
is_some-cases none e = cc e
is_some-cases (some a) e = (a, refl)

module _ (env : Env) (id : String) (m : ℕ) (ds : List StateDef) where
  named :
      (name : String)
      → In name (names ds)
      → (s : WorkflowState) × (state_named name (state_rows env id m ds) ≡ some s)
  named name i =
      is_some-cases _ (state_named-some env id name m ds ∙ (includes_iff (names ds) name).1 i)

  named-In :
      (name : String) (s : WorkflowState)
      → state_named name (state_rows env id m ds) ≡ some s
      → In name (names ds)
  named-In name s e =
      (includes_iff (names ds) name).0 (sym (state_named-some env id name m ds) ∙ ap is_some e)

  rows-linked :
      (n : ℕ) (ts : List TransitionDef)
      → All (IsLinked (names ds)) ts
      → (rows : List WorkflowTransition) × (transition_rows env id n (state_rows env id m ds) ts
          ≡ ok rows)
  unfolding transition_rows
  rows-linked n [] h = ([], refl)
  rows-linked n (t ∷ ts) h =
      let (from, e) = named t.from h.0.0 in
      let (to, k) = named t.to h.0.1 in
      let (rest, r) = rows-linked (suc n) ts h.1 in
      (transition_row env id n t from to ∷ rest, simp (e, k, r))

  transition_rows-IsLinked :
      (n : ℕ) (ts : List TransitionDef) (rows : List WorkflowTransition)
      → transition_rows env id n (state_rows env id m ds) ts ≡ ok rows
      → All (IsLinked (names ds)) ts
  unfolding transition_rows
  transition_rows-IsLinked n [] rows e = tt
  transition_rows-IsLinked n (t ∷ ts) rows e =
      let states = state_rows env id m ds in
      let (from, f, e1) =
        >>=-eq-ok (from_option (invalid_transition t.from t.to) (state_named t.from states)) _ e in
      let (to, g, e2) =
        >>=-eq-ok (from_option (invalid_transition t.from t.to) (state_named t.to states)) _ e1 in
      let (rest, r, _) = >>=-eq-ok (transition_rows env id (suc n) states ts) _ e2 in
      (
        (
          named-In t.from from (from_option-eq-ok _ _ f),
          named-In t.to to (from_option-eq-ok _ _ g),
        ),
        transition_rows-IsLinked (suc n) ts rest r,
      )

-- A definition is accepted exactly when both ends of every transition name a state of it, whatever the
-- tables hold.
pub create_workflow_iff :
    (env : Env) (tenant_id : String) (d : WorkflowDefinition) (db : Db)
    → ((w : Workflow) × ((create_workflow env tenant_id d db).0 ≡ ok w))
      ↔ All (IsLinked (names d.states)) d.transitions
create_workflow_iff env tenant_id d db =
    let id = (workflow_row env tenant_id d db.issued).id in
    elim (create_workflow-Creation env tenant_id d db) [
      | rolled_back x q k ↦ (
        λ w. let (row, e) = w in cc (e, ap (λ r. r.0) q),
        λ h.
            let (rows, e) =
              rows-linked env id (suc db.issued) d.states
                (suc db.issued + length (state_rows env id (suc db.issued) d.states)) d.transitions
                h in
            cc (e, k),
      )
      | inserted ts after ws q k ↦ (
        λ w. transition_rows-IsLinked env id (suc db.issued) d.states _ d.transitions ts k,
        λ h. (workflow_row env tenant_id d db.issued, ap (λ r. r.0) q),
      )
    ]
