-- ===== src/Pack/Create/Again.antt =====
-- `materialise` of src/workflow/services/pack-workflow.service.ts, called twice.
use meru_core.Base.{
  ℕ, String, Option, List, [], ◌∷◌, ◌++◌, ◌≡◌, refl, ap, subst, true, inl, inr, eq_refl, filter,
  is_some, All, Option-cases, Result, ok, err,
}
use meru_core.Workflow.Types.{Db}
use meru_core.Workflow.Engine.Lookup.{Error, Env, present}
use meru_core.Pack.Definition.{PackWorkflow, to_definition}
use meru_core.Pack.Create.{
  workflow_row, find_materialised, Report, materialise_one, materialise_next, materialise_all,
  materialise, is_wanted,
}
use meru_core.Pack.Create.Laws.{
  IsMaterialised, is_materialised_as, insert-IsMaterialised, activate-IsMaterialised, rolled_back,
  inserted, create_workflow-Creation,
}

module _ (env : Env) (tenant_id : String) (code version : Option String) where
  -- What a round that returns leaves: its workflow is there, and so is what was there.
  record Round (def : PackWorkflow) (db after : Db) : Type 0 where
    pub there : IsMaterialised tenant_id after def.id
    pub stays :
        (pack_id : String)
        → IsMaterialised tenant_id db pack_id
        → IsMaterialised tenant_id after pack_id

  row-matches :
      (def : PackWorkflow) (n : ℕ)
      → is_materialised_as tenant_id def.id
          (workflow_row env tenant_id (to_definition env.runtime code version def).0 n)
        ≡ true
  unfolding workflow_row to_definition
  row-matches def n = simp (eq_refl tenant_id, eq_refl def.id)

  one-Round :
      (def : PackWorkflow) (r : Report) (db : Db) (r' : Report)
      → (materialise_one env tenant_id code version def r db).0 ≡ ok r'
      → Round def db (materialise_one env tenant_id code version def r db).1
  unfolding materialise_one
  one-Round def r db r' h = elim (Option-cases (find_materialised tenant_id def.id db)) [
    | inr (w, found) ↦ simp found (record { there = ap is_some found; stays = λ pack_id m. m })
    | inl absent ↦
        elim (create_workflow-Creation env tenant_id (to_definition env.runtime code version def).0
          db) [
            | rolled_back e q k ↦ cc (simp (absent, q) at h)
            | inserted ts after ws q k ↦
                let w =
                  workflow_row env tenant_id (to_definition env.runtime code version def).0
                    db.issued in
                simp (absent, q)
                  (record {
                    there = activate-IsMaterialised tenant_id def.id w.id after (
                        insert-IsMaterialised tenant_id def.id w db after ws
                          (inl (row-matches def db.issued)));
                    stays = λ pack_id m.
                        activate-IsMaterialised tenant_id pack_id w.id after
                          (insert-IsMaterialised tenant_id pack_id w db after ws (inr m));
                  })
          ]
  ]

  rounds_done :
      (defs : List PackWorkflow) (r : Report) (db : Db) (r' : Report)
      → (materialise_all env tenant_id code version defs r db).0 ≡ ok r'
      → All
          (λ def.
            IsMaterialised tenant_id
              (materialise_all env tenant_id code version defs r db).1
              def.id)
          defs
        × ((pack_id : String)
            → IsMaterialised tenant_id db pack_id
            → IsMaterialised tenant_id
                (materialise_all env tenant_id code version defs r db).1
                pack_id)
  unfolding materialise_all
  rounds_done [] r db r' h = (tt, λ pack_id m. m)
  rounds_done (def ∷ defs) r db r' h =
      round (λ r1 mid g. rounds_done defs r1 mid r' g)
        (materialise_one env tenant_id code version def r db) refl h
    where
      round :
          ((r1 : Report) (mid : Db)
            → (materialise_all env tenant_id code version defs r1 mid).0 ≡ ok r'
            → All
                (λ (d : PackWorkflow).
                  IsMaterialised tenant_id
                    (materialise_all env tenant_id code version defs r1 mid).1
                    d.id)
                defs
              × ((pack_id : String)
                  → IsMaterialised tenant_id mid pack_id
                  → IsMaterialised tenant_id
                      (materialise_all env tenant_id code version defs r1 mid).1
                      pack_id))
          → (one : Result Error Report × Db)
          → materialise_one env tenant_id code version def r db ≡ one
          → (materialise_next (materialise_all env tenant_id code version defs) one).0 ≡ ok r'
          → (let after =
                (materialise_next (materialise_all env tenant_id code version defs) one).1 in
              All (λ (d : PackWorkflow). IsMaterialised tenant_id after d.id) (def ∷ defs)
              × ((pack_id : String)
                  → IsMaterialised tenant_id db pack_id
                  → IsMaterialised tenant_id after pack_id))
      round rest (err e, mid) q g = cc g
      round rest (ok r1, mid) q g =
          let step : Round def db mid =
            subst (λ (x : Result Error Report × Db). Round def db x.1) q
              (one-Round def r db r1 (ap (λ x. x.0) q)) in
          let (there, stays) = rest r1 mid g in
          ((stays def.id step.there, there), λ pack_id m. stays pack_id (step.stays pack_id m))

  -- Where everything is there, nothing is done.
  nothing_to_do :
      (defs : List PackWorkflow) (r : Report) (db : Db)
      → All (λ def. IsMaterialised tenant_id db def.id) defs
      → ((r' : Report) × (materialise_all env tenant_id code version defs r db ≡ (ok r', db))
          × (r'.created ≡ r.created)
          × (r'.unevaluable ≡ r.unevaluable))
  unfolding materialise_all materialise_one
  nothing_to_do [] r db h = (r, refl, refl, refl)
  nothing_to_do (def ∷ defs) r db h = elim (Option-cases (find_materialised tenant_id def.id db)) [
    | inl absent ↦ cc (ap is_some absent, h.0)
    | inr (w, found) ↦
        let next : Report = record r { existing = r.existing ++ (def.id, w.id) ∷ [] } in
        let (r', q, c, u) = nothing_to_do defs next db h.1 in (r', simp found q, c, u)
  ]

-- A pack that has been materialised, all of it or one workflow of it, is not materialised again: the
-- second call returns a report in which nothing is created, and leaves the tables as they are.
pub materialise_again :
    (env : Env) (tenant_id : String) (code version : Option String) (section : List PackWorkflow)
    (only : Option String) (db : Db) (r : Report)
    → (materialise env tenant_id code version section only db).0 ≡ ok r
    → ((r' : Report) × (materialise env tenant_id code version section only
            (materialise env tenant_id code version section only db).1
          ≡ (ok r', (materialise env tenant_id code version section only db).1))
        × (r'.created ≡ []))
unfolding materialise
materialise_again env tenant_id code version section only db r h =
    let wanted = filter (is_wanted (present only)) section in
    let empty_report : Report = record { created = []; existing = []; unevaluable = [] } in
    let (there, _) = rounds_done env tenant_id code version wanted empty_report db r h in
    let (r', q, c, _) =
      nothing_to_do env tenant_id code version wanted empty_report
        (materialise_all env tenant_id code version wanted empty_report db).1 there in
    (r', q, c)
