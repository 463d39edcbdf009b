-- ===== src/Workflow/Watchdog/Laws.antt =====
-- What a sweep of src/workflow/services/sla-watchdog.service.ts does, and what it leaves alone.
use mathlib.Core.Bool.{false≢true}
use meru_core.Base.{
  suc, String, Option, none, some, List, [], ◌∷◌, ◌++◌, ◌≡◌, ◌≢◌, refl, sym, ap, ◌∙◌, false, ◌==◌,
  inl, inr, arith, eq_iff, filter, map, In, In-filter_iff, In-of_map, All, All-of_In, Option-cases,
  if_elim, find?-eq-some, nat_eq, ◌⊎◌,
}
use meru_core.Access.{system_actor}
use meru_core.Jobs.Sweep.{Tally, sweep_from, no_tally, run_tenant_bound_sweep}
use meru_core.Workflow.Types.{Workflow, WorkflowInstance, WorkflowTransition, Db}
use meru_core.Workflow.Engine.Lookup.{Error, Env, Loaded, load}
use meru_core.Workflow.Engine.Gates.{TransitionRequest}
use meru_core.Workflow.Engine.Transition.{
  transition, update_where, advance, commit, append_audit, audit_entry,
}
use meru_core.Workflow.Engine.Prepare.{prepare-Passed}
use meru_core.Workflow.Engine.Commit.{
  refused, orphaned, done_, transition-Ending, transition_succeeds,
}
use meru_core.Workflow.Watchdog.{
  EscalationLevel, Violation, WatchState, WatchEnv, notify_recipients, first_or_none,
  get_available_transitions, auto_request, auto_approve, cancelled_instance,
  execute_escalation_actions, raised, record_violation, next_level, process_escalation, is_violated,
  check_sla_violations,
}

module _ (i : WorkflowInstance) where
  update_where-spares :
      (id : String) (f : WorkflowInstance → WorkflowInstance) (is : List WorkflowInstance)
      → id ≢ i.id
      → In i is
      → In i (update_where id f is)
  update_where-spares id f [] h m = absurd m
  update_where-spares id f (x ∷ is) h (inl e) =
      let other : i.id == id ≡ false = ground (arith, eq_iff i.id id, h) in
      inl (rw (← e, other) refl)
  update_where-spares id f (x ∷ is) h (inr m) = inr (update_where-spares id f is h m)

  transition-spares :
      (env : Env) (req : TransitionRequest) (db : Db)
      → req.instance_id ≢ i.id
      → In i db.instances
      → In i (transition env req db).1.instances
  transition-spares env req db h m = elim (transition-Ending env req db) [
    | refused e q ↦ rw q m
    | orphaned p q ↦ rw q m
    | done_ p w hp hw may ↦
        let own : p.row.id ≢ i.id =
          λ same. h (sym (prepare-Passed env req db p hp).found.has_its_id ∙ same) in
        let kept = update_where-spares p.row.id (advance env req p w) db.instances own m in
        rw (transition_succeeds env req db p w hp hw may) (
          if_elim (λ (d : Db). In i d.instances) env.audit_works
            (append_audit (audit_entry req p) (commit env req p w db)) (commit env req p w db)
            (unfold commit in kept) (unfold commit in kept))
  ]

  abbrev Rests : WatchState → Type 0
  Rests s = In i s.db.instances

  auto_approve-spares :
      (env : WatchEnv) (j : WorkflowInstance) (o : Option WorkflowTransition) (s : WatchState)
      → j.id ≢ i.id
      → Rests s
      → Rests (auto_approve env j o s).0
  auto_approve-spares env j none s h m = m
  auto_approve-spares env j (some t) s h m =
      transition-spares env.engine (auto_request j t) s.db h m

  actions-spares :
      (env : WatchEnv) (j : WorkflowInstance) (e : EscalationLevel) (s : WatchState)
      → j.id ≢ i.id
      → Rests s
      → Rests (execute_escalation_actions env j e s).0
  unfolding execute_escalation_actions notify_recipients
  actions-spares env j e s h m =
      let approved =
        auto_approve-spares env j
          (first_or_none (get_available_transitions env.engine j.id j.tenant_id system_actor s.db))
          s h m in
      let dropped = update_where-spares j.id cancelled_instance s.db.instances h m in
      if_elim (λ (r : WatchState × Option Error). Rests r.0) (e.action == "notify") _ _ m
        (if_elim (λ (r : WatchState × Option Error). Rests r.0) (e.action == "escalate") _ _ m
          (if_elim (λ (r : WatchState × Option Error). Rests r.0) (e.action == "auto_approve") _ _
            approved
            (if_elim (λ (r : WatchState × Option Error). Rests r.0) (e.action == "cancel") _ _
              dropped m)))

  process-spares :
      (env : WatchEnv) (l : Loaded) (s : WatchState)
      → l.row.id ≢ i.id
      → Rests s
      → Rests (process_escalation env l s).0
  unfolding process_escalation
  process-spares env l s h m = elim (Option-cases l.workflow) [
    | inl e ↦ rw e m
    | inr (w, e) ↦ elim (Option-cases (next_level env l.row w)) [
      | inl f ↦ rw (e, f) m
      | inr (v, f) ↦
          rw (e, f)
            (actions-spares env l.row v (record_violation env l.row v s) h
              (update_where-spares l.row.id (raised v.level) s.db.instances h m))
    ]
  ]

  sweep_from-spares :
      (env : WatchEnv) (ls : List Loaded) (t : Tally Error) (s : WatchState)
      → All (λ l. l.row.id ≢ i.id) ls
      → Rests s
      → Rests
          (sweep_from
            (λ (l : Loaded). l.row.tenant_id)
            (λ (l : Loaded). l.row.id)
            (process_escalation env)
            t
            ls
            s).1
  sweep_from-spares env [] t s h m = m
  sweep_from-spares env (l ∷ ls) t s h m =
      sweep_from-spares env ls _ _ h.1 (process-spares env l s h.0 m)

-- An id is that of one row.
abbrev pub HasOneRowEach : Db → Type 0
HasOneRowEach db =
    (a b : WorkflowInstance) → In a db.instances → In b db.instances → a.id ≡ b.id → a ≡ b

-- A sweep of the watchdog leaves every row alone of an instance that is not active or not past its
-- deadline, whatever it does to the others, and even where it moves one along a transition. An id is
-- that of one instance.
pub check_sla_violations-spares :
    (env : WatchEnv) (s : WatchState) (i : WorkflowInstance)
    → HasOneRowEach s.db
    → In i s.db.instances
    → is_violated env.engine.now i ≡ false
    → In i (check_sla_violations env s).1.db.instances
unfolding check_sla_violations run_tenant_bound_sweep
check_sla_violations-spares env s i one m fine =
    sweep_from-spares i env (map (load s.db) (filter (is_violated env.engine.now) s.db.instances))
      no_tally s
      (All-of_In (map (load s.db) (filter (is_violated env.engine.now) s.db.instances)) (λ l n same.
        let (x, k, e) =
          In-of_map (load s.db) (filter (is_violated env.engine.now) s.db.instances) l n in
        let (inside, late) = (In-filter_iff (is_violated env.engine.now) s.db.instances x).0 k in
        let own : x ≡ i = one x i inside m (ap (λ (y : Loaded). y.row.id) (sym e) ∙ same) in
        false≢true (sym fine ∙ ap (is_violated env.engine.now) (sym own) ∙ late)))
      m

module _ (env : WatchEnv) (j : WorkflowInstance) where
  approve_violations :
      (o : Option WorkflowTransition) (s : WatchState)
      → (auto_approve env j o s).0.violations ≡ s.violations
  approve_violations none s = refl
  approve_violations (some t) s = refl

  actions_violations :
      (e : EscalationLevel) (s : WatchState)
      → (execute_escalation_actions env j e s).0.violations ≡ s.violations
  unfolding execute_escalation_actions notify_recipients
  actions_violations e s =
      if_elim (λ (r : WatchState × Option Error). r.0.violations ≡ s.violations)
        (e.action == "notify") _ _ refl
        (if_elim (λ (r : WatchState × Option Error). r.0.violations ≡ s.violations)
          (e.action == "escalate") _ _ refl
          (if_elim (λ (r : WatchState × Option Error). r.0.violations ≡ s.violations)
            (e.action == "auto_approve") _ _
            (approve_violations
              (first_or_none
                (get_available_transitions env.engine j.id j.tenant_id system_actor s.db))
              s)
            (if_elim (λ (r : WatchState × Option Error). r.0.violations ≡ s.violations)
              (e.action == "cancel") _ _ refl refl)))

-- The violation that the watchdog records at a level.
abbrev pub violation_at : WatchEnv → WorkflowInstance → EscalationLevel → Violation
violation_at env i e = record {
  instance_id = i.id;
  level = e.level;
  timestamp = env.engine.now;
  action = e.action;
}

-- What the watchdog records of a late instance whose workflow is there: the violation of the level
-- after its own, once, and whatever becomes of the action, even if it throws; nothing when the workflow
-- has no such level, in which case nothing changes.
pub process_escalation_records :
    (env : WatchEnv) (l : Loaded) (w : Workflow) (s : WatchState)
    → l.workflow ≡ some w
    → ((next_level env l.row w ≡ none) × (process_escalation env l s ≡ (s, none)))
      ⊎ ((e : EscalationLevel) × (next_level env l.row w ≡ some e)
          × (e.level ≡ suc l.row.escalation_level)
          × ((process_escalation env l s).0.violations
              ≡ s.violations ++ violation_at env l.row e ∷ []))
unfolding process_escalation
process_escalation_records env l w s h = elim (Option-cases (next_level env l.row w)) [
  | inl f ↦ inl (f, rw (h, f) refl)
  | inr (e, f) ↦
      let found =
        (find?-eq-some (λ x. nat_eq x.level (suc l.row.escalation_level)) (env.levels w) e f).1 in
      inr (
        e,
        f,
        ground (arith, found),
        rw (h, f) (actions_violations env l.row e (record_violation env l.row e s)),
      )
]
