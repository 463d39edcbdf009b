-- ===== src/Tasks/Marking.antt =====
-- `startTask` and `completeTask` of src/tasks/task.service.ts: whose task is marked, and what of the
-- table stays.
use meru_core.Base.{
  String, List, [], ◌∷◌, true, false, ◌≡◌, ◌≢◌, Option-cases, find?-eq-none, In_of_All, refl, sym,
  ap, ◌∙◌, ◌==◌, ◌⊎◌, inl, inr, arith, eq_iff, find?, find?-eq-some, if◌then◌else◌, map, In,
  Bool-cases, Result, ok, err, ◌>>=◌,
}
use meru_core.Access.{Actor, has_tenant_wide_reach}
use meru_core.Tasks.Types.{Task, TaskDb, TaskError, task_not_found}
use meru_core.Tasks.Work.{
  TaskEnv, is_task, find_task_or_throw, may_reach, get_task, put_task, update_task, started_task,
  completed_task, start_task, complete_task,
}

-- `save` of a changed row, row by row: the rows of its id become it.
put_task-map :
    (t : Task) (ts : List Task) → put_task t ts ≡ map (λ u. if u.id == t.id then t else u) ts
put_task-map t [] = refl
put_task-map t (u ∷ us) = elim (Bool-cases (u.id == t.id)) [
  | inl h ↦ rw h (ap (λ vs. t ∷ vs) (put_task-map t us))
  | inr h ↦ rw h (ap (λ vs. u ∷ vs) (put_task-map t us))
]

-- An id is that of one row.
abbrev pub HasOneTaskEach : TaskDb → Type 0
HasOneTaskEach db = (a b : Task) → In a db.tasks → In b db.tasks → a.id ≡ b.id → a ≡ b

module _ (env : TaskEnv) (id tenant_id : String) (actor : Actor) (db : TaskDb) where
  -- The table in which the row of `id` has become `t`.
  abbrev pub rewritten : Task → TaskDb
  rewritten t = record db { tasks = map (λ u. if u.id == id then t else u) db.tasks }

  -- Nobody's row, or one that the caller may not reach.
  abbrev pub IsOutOfReach : Type 0
  IsOutOfReach =
      (u : Task)
      → In u db.tasks
      → u.id ≡ id
      → u.tenant_id ≡ tenant_id
      → (has_tenant_wide_reach env.store actor ≡ false) × (u.assigned_to ≢ actor.id)

  -- The row that the call addresses, which the caller may reach.
  abbrev pub IsWithinReach : Task → Type 0
  IsWithinReach t =
      In t db.tasks
      × (t.id ≡ id)
      × (t.tenant_id ≡ tenant_id)
      × ((has_tenant_wide_reach env.store actor ≡ true) ⊎ (t.assigned_to ≡ actor.id))

  may_reach_cases :
      (t : Task)
      → may_reach env actor t ≡ true
      → (has_tenant_wide_reach env.store actor ≡ true) ⊎ (t.assigned_to ≡ actor.id)
  may_reach_cases t h = elim (Bool-cases (has_tenant_wide_reach env.store actor)) [
    | inl wide ↦ inl wide
    | inr own ↦ inr (ground (arith, eq_iff t.assigned_to actor.id))
  ]

  module _ (f : Task → Task) (keeps : (t : Task) → (f t).id ≡ t.id) where
    abbrev mark_task : Result TaskError TaskDb
    mark_task = get_task env id tenant_id actor db >>= λ t. update_task id tenant_id f db

    mark_task-Ending :
        HasOneTaskEach db
        → ((mark_task ≡ err task_not_found) × IsOutOfReach)
          ⊎ ((t : Task) × IsWithinReach t × (mark_task ≡ ok (rewritten (f t))))
    unfolding get_task find_task_or_throw update_task
    mark_task-Ending one = elim (Option-cases (find? (is_task id tenant_id) db.tasks)) [
      | inl n ↦ inl (
        rw n refl,
        λ u m e g. ground (
          arith,
          In_of_All (λ a. is_task id tenant_id a ≡ false) db.tasks
              (find?-eq-none (is_task id tenant_id) db.tasks n) u m,
          eq_iff u.id id,
          eq_iff u.tenant_id tenant_id,
        ),
      )
      | inr (t, s) ↦
          let (m, q) = find?-eq-some (is_task id tenant_id) db.tasks t s in
          let own : t.id ≡ id = ground (arith, eq_iff t.id id) in
          let firm : t.tenant_id ≡ tenant_id = ground (arith, eq_iff t.tenant_id tenant_id) in
          elim (Bool-cases (may_reach env actor t)) [
            | inl r ↦ inr (
              t,
              (m, own, firm, may_reach_cases t r),
              rw (s, r)
                  (ap (λ ts. ok (record db { tasks = ts }))
                    (put_task-map (f t) db.tasks
                      ∙ ap (λ i. map (λ u. if u.id == i then f t else u) db.tasks)
                          (keeps t ∙ own))),
            )
            | inr r ↦ inl (
              rw (s, r) refl,
              λ u n e g.
                  let same : t ≡ u = one t u m n (own ∙ sym e) in
                  let refused : may_reach env actor u ≡ false =
                    ap (may_reach env actor) (sym same) ∙ r in
                  ground (arith, refused, eq_iff u.assigned_to actor.id),
            )
          ]
    ]

  -- Completing a task either is refused as not found, and then no row of that id in the tenant is within the
  -- caller's reach, or marks the one that is: done, now and by the caller, every row of another
  -- id and everything else staying as it was. An id is that of one row.
  pub complete_task-Ending :
      HasOneTaskEach db
      → ((complete_task env id tenant_id actor db ≡ err task_not_found) × IsOutOfReach)
        ⊎ ((t : Task) × IsWithinReach t
            × (complete_task env id tenant_id actor db
                ≡ ok (rewritten (completed_task env.now actor.id t))))
  unfolding complete_task
  complete_task-Ending = mark_task-Ending (completed_task env.now actor.id) (λ t. refl)

  -- Starting a task, likewise: whatever its status was, it is in progress since now.
  pub start_task-Ending :
      HasOneTaskEach db
      → ((start_task env id tenant_id actor db ≡ err task_not_found) × IsOutOfReach)
        ⊎ ((t : Task) × IsWithinReach t
            × (start_task env id tenant_id actor db ≡ ok (rewritten (started_task env.now t))))
  unfolding start_task
  start_task-Ending = mark_task-Ending (started_task env.now) (λ t. refl)
