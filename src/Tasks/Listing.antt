-- ===== src/Tasks/Listing.antt =====
-- What `listTasks` of src/tasks/task.service.ts shows to a caller.
use meru_core.Base.{
  ℕ, ◌≤◌, String, true, ◌≡◌, ◌-◌, ◌*◌, ◌⊎◌, inl, inr, arith, eq_iff, filter, length, Option, none,
  some, In, In-filter_iff, Bool-cases,
}
use meru_core.Access.{Actor, has_tenant_wide_reach}
use meru_core.Queue.Listing.{skip_rows}
use meru_core.Queue.Listing.Paging.{length-take_rows, In-take_rows, In-skip_rows}
use meru_core.Tasks.Types.{Task, TaskDb}
use meru_core.Tasks.Work.{TaskEnv, ListOptions, is_listed, limit_within, page_of, list_tasks}

limit_bounded : (o : Option ℕ) → limit_within o ≤ 200
limit_bounded none = omega arith
limit_bounded (some n) = ground arith

-- Whatever a caller asks for, it is shown at most 200 tasks, each a row of the tenant, and one that is
-- assigned to the caller itself unless the caller's reach is the whole tenant.
pub list_tasks-IsReachable :
    (env : TaskEnv) (tenant_id : String) (o : ListOptions) (actor : Actor) (db : TaskDb)
    → (length (list_tasks env tenant_id o actor db).items ≤ 200)
      × ((t : Task)
          → In t (list_tasks env tenant_id o actor db).items
          → In t db.tasks
            × (t.tenant_id ≡ tenant_id)
            × ((has_tenant_wide_reach env.store actor ≡ true) ⊎ (t.assigned_to ≡ actor.id)))
unfolding list_tasks
list_tasks-IsReachable env tenant_id o actor db =
    let shown = filter (is_listed env tenant_id o actor) db.tasks in
    let skipped = (page_of o.page - 1) * limit_within o.limit in
    (
      omega (
        arith,
        length-take_rows (limit_within o.limit) (skip_rows skipped shown),
        limit_bounded o.limit,
      ),
      λ t m.
          let (k, q) =
            (In-filter_iff (is_listed env tenant_id o actor) db.tasks t).0
              (In-skip_rows skipped shown t (In-take_rows (limit_within o.limit) _ t m)) in
          (
            k,
            ground (arith, eq_iff t.tenant_id tenant_id),
            elim (Bool-cases (has_tenant_wide_reach env.store actor)) [
              | inl wide ↦ inl wide
              | inr own ↦ inr (ground (arith, eq_iff t.assigned_to actor.id))
            ],
          ),
    )
