-- ===== src/Pack/Create/Laws.antt =====
-- What `createWorkflow` of src/workflow/workflow.service.ts leaves in the tables.
use meru_core.Base.{
  suc, ◌+◌, String, List, [], ◌∷◌, ◌++◌, ◌≡◌, refl, sym, ◌∙◌, subst, Bool, true, ◌&&◌, ◌==◌, ◌⊎◌,
  inl, inr, eq_refl, if◌then◌else◌, find?, map, length, is_some, Bool-cases, Result, ok, err,
  Result-cases,
}
use meru_core.Workflow.Types.{WorkflowStatus, Workflow, WorkflowTransition, Db}
use meru_core.Workflow.Engine.Lookup.{Error, Env, get_workflow}
use meru_core.Pack.Definition.{WorkflowDefinition}
use meru_core.Pack.Create.{
  state_rows, transition_rows, workflow_row, create_workflow, find_materialised, activate, of_pack,
}

-- A workflow of this pack id has been materialised for the tenant.
abbrev pub IsMaterialised : String → Db → String → Type 0
IsMaterialised tenant_id db pack_id = is_some (find_materialised tenant_id pack_id db) ≡ true

found-head :
    (test : Workflow → Bool) (w : Workflow) (ws : List Workflow)
    → (test w ≡ true) ⊎ (is_some (find? test ws) ≡ true)
    → is_some (find? test (w ∷ ws)) ≡ true
found-head test w ws h = elim (Bool-cases (test w)) [
  | inl hit ↦ rw hit
  | inr miss ↦ elim h [ inl e ↦ cc (e, miss) | inr e ↦ rw miss e ]
]

module _ (test : Workflow → Bool) (f : Workflow → Workflow)
    (same : (w : Workflow) → test (f w) ≡ test w) where
  found-map : (ws : List Workflow) → is_some (find? test (map f ws)) ≡ is_some (find? test ws)
  found-map [] = refl
  found-map (w ∷ ws) = elim (Bool-cases (test w)) [
    | inl hit ↦ rw (same w, hit)
    | inr miss ↦ rw (same w, miss) (found-map ws)
  ]

activate_same :
    (tenant_id pack_id id : String) (w : Workflow)
    → ((if w.id == id then record w { status = WorkflowStatus.active } else w).tenant_id
          == tenant_id
        && of_pack pack_id
            (if w.id == id then record w { status = WorkflowStatus.active } else w).pack)
      ≡ (w.tenant_id == tenant_id && of_pack pack_id w.pack)
activate_same tenant_id pack_id id w = elim (Bool-cases (w.id == id)) [
  | inl h ↦ rw h
  | inr h ↦ rw h
]

pub activate-IsMaterialised :
    (tenant_id pack_id id : String) (db : Db)
    → IsMaterialised tenant_id db pack_id
    → IsMaterialised tenant_id (activate id db) pack_id
unfolding find_materialised activate
activate-IsMaterialised tenant_id pack_id id db h =
    found-map (λ w. w.tenant_id == tenant_id && of_pack pack_id w.pack) _
      (activate_same tenant_id pack_id id) db.workflows
    ∙ h

-- Whether `find_materialised` would take this row.
abbrev pub is_materialised_as : String → String → Workflow → Bool
is_materialised_as tenant_id pack_id w = w.tenant_id == tenant_id && of_pack pack_id w.pack

pub insert-IsMaterialised :
    (tenant_id pack_id : String) (w : Workflow) (db after : Db)
    → after.workflows ≡ w ∷ db.workflows
    → (is_materialised_as tenant_id pack_id w ≡ true) ⊎ IsMaterialised tenant_id db pack_id
    → IsMaterialised tenant_id after pack_id
unfolding find_materialised
insert-IsMaterialised tenant_id pack_id w db after q h =
    subst (λ ws. is_some (find? (is_materialised_as tenant_id pack_id) ws) ≡ true) (sym q)
      (found-head (is_materialised_as tenant_id pack_id) w db.workflows h)

-- The rows of the transitions that `createWorkflow` builds.
abbrev pub built_rows :
    Env → String → WorkflowDefinition → Db → Result Error (List WorkflowTransition)
built_rows env tenant_id d db =
    let w = workflow_row env tenant_id d db.issued in
    let states = state_rows env w.id (suc db.issued) d.states in
    transition_rows env w.id (suc db.issued + length states) states d.transitions

-- How `createWorkflow` can end.
pub data Creation (env : Env) (tenant_id : String) (d : WorkflowDefinition) (db : Db) : Type 0 where
  rolled_back :
      (e : Error)
      → create_workflow env tenant_id d db ≡ (err e, db)
      → built_rows env tenant_id d db ≡ err e
      → Creation env tenant_id d db
  inserted :
      (ts : List WorkflowTransition) (after : Db)
      → after.workflows ≡ workflow_row env tenant_id d db.issued ∷ db.workflows
      → create_workflow env tenant_id d db ≡ (ok (workflow_row env tenant_id d db.issued), after)
      → built_rows env tenant_id d db ≡ ok ts
      → Creation env tenant_id d db

pub create_workflow-Creation :
    (env : Env) (tenant_id : String) (d : WorkflowDefinition) (db : Db)
    → Creation env tenant_id d db
create_workflow-Creation env tenant_id d db =
    let w = workflow_row env tenant_id d db.issued in
    let states = state_rows env w.id (suc db.issued) d.states in
    elim (Result-cases
      (transition_rows env w.id (suc db.issued + length states) states d.transitions)) [
        | inl (e, h) ↦ rolled_back e (unfold create_workflow in simp h) h
        | inr (ts, h) ↦
            inserted ts
              (record db {
                workflows = w ∷ db.workflows;
                states = states ++ db.states;
                transitions = ts ++ db.transitions;
                issued = suc db.issued + (length states + length ts);
              })
              refl
              (unfold create_workflow get_workflow in simp (h, eq_refl w.id, eq_refl w.tenant_id)) h
      ]
