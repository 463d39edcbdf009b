-- ===== src/Workflow/Engine/Listing.antt =====
-- `listInstances` of src/workflow/workflow.service.ts, beside the ownership check of `getInstance`.
use meru_core.Base.{
  String, Option, none, some, List, [], ◌∷◌, ◌≡◌, ◌≢◌, refl, ◌↔◌, inl, inr, true, ◌&&◌, ◌||◌, ◌==◌,
  arith, eq_iff, filter, includes, In, In-filter_iff, Bool-cases,
}
use meru_core.Access.{Actor, has_tenant_wide_reach}
use meru_core.Workflow.Types.{InstanceStatus, WorkflowInstance, Db}
use meru_core.Workflow.Engine.Lookup.{
  Env, present, owned_entity_ids, owned_for_filter, owns_instance, base_matches, id_matches,
  list_instances,
}

includes-filter :
    (wanted : String) (owned : List String)
    → includes (filter (λ id. id == wanted) owned) wanted ≡ includes owned wanted
includes-filter wanted [] = refl
includes-filter wanted (x ∷ owned) =
    ground (arith, eq_iff x wanted, eq_iff wanted wanted, includes-filter wanted owned)

-- Where the filter lets an id pass, its own branch holds it exactly when the caller's ids do.
includes-owned_for_filter :
    (wanted : Option String) (owned : List String) (id : String)
    → id_matches wanted id ≡ true
    → includes (owned_for_filter wanted owned) id ≡ includes owned id
unfolding owned_for_filter
includes-owned_for_filter none owned id h = refl
includes-owned_for_filter (some w) owned id h =
    let same : id ≡ w = (eq_iff id w).0 h in rw same (includes-filter w owned)

-- An instance is listed exactly when it is a row that the filters let pass and that the caller could
-- read by its id, if its record's id is not the empty text.
pub In-list_instances_iff :
    (env : Env) (tenant_id : String) (actor : Actor) (status : Option InstanceStatus)
    (entity_id : Option String) (db : Db) (i : WorkflowInstance)
    → i.entity_id ≢ ""
    → In i (list_instances env tenant_id actor status entity_id db) ↔ (
        In i db.instances
        × (base_matches tenant_id status entity_id i ≡ true)
        × (owns_instance env tenant_id actor db i ≡ true))
unfolding list_instances owns_instance
In-list_instances_iff env tenant_id actor status entity_id db i h =
    let reach = has_tenant_wide_reach env.store actor in
    let owned = owned_entity_ids env tenant_id actor db in
    let base = base_matches tenant_id status entity_id in
    let mine = owned_for_filter (present entity_id) owned in
    let narrowed =
      λ (x : WorkflowInstance). base x && (x.started_by == actor.id || includes mine x.entity_id) in
    let same = includes-owned_for_filter (present entity_id) owned i.entity_id in
    elim (Bool-cases reach) [
      | inl wide ↦ (
        λ m. let (k, q) = (In-filter_iff base db.instances i).0 (rw wide at m) in (k, q, rw wide),
        λ w. rw wide ((In-filter_iff base db.instances i).1 (w.0, w.1)),
      )
      | inr own ↦ (
        λ m.
            let (k, q) = (In-filter_iff narrowed db.instances i).0 (rw own at m) in
            (k, ground arith, ground (arith, same, eq_iff i.entity_id "")),
        λ w. rw own (
            (In-filter_iff narrowed db.instances i).1
              (w.0, ground (arith, same, eq_iff i.entity_id ""))),
      )
    ]
