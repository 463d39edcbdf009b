-- ===== src/Workflow/Watchdog/Tests.antt =====
-- A late case and a suspended one, swept by the watchdog.
use meru_core.Base.{
  none, some, [], ◌∷◌, ◌++◌, ◌≡◌, ◌≢◌, refl, sym, ap, ◌∙◌, true, false, eq_iff, arith, inl, inr, In,
  ◌⊎◌, suc, String,
}
use meru_core.Jobs.Sweep.{run_tenant_bound_sweep}
use meru_core.Workflow.Types.{WorkflowInstance}
use meru_core.Workflow.Engine.Lookup.{load}
use meru_core.Workflow.Engine.Sample.{env, office, open_case, suspended_case, case_workflow}
use meru_core.Workflow.Watchdog.{
  EscalationLevel, WatchState, WatchEnv, next_level, process_escalation, check_sla_violations,
  execute_escalation_actions, notify_recipients,
}
use meru_core.Workflow.Watchdog.Laws.{
  HasOneRowEach, check_sla_violations-spares, violation_at, process_escalation_records,
}

abbrev late_case : WorkflowInstance
late_case = record open_case { sla_deadline = some 900 }

abbrev to_notify : EscalationLevel
to_notify = record { level = 1; action = "notify"; notify = "assignee" ∷ "u9" ∷ [] }

abbrev watch : WatchEnv
watch = record { engine = env; levels = λ w. to_notify ∷ []; delivers = λ n. true }

abbrev late_office : WatchState
late_office = record {
  db = record office { instances = late_case ∷ suspended_case ∷ [] };
  violations = [];
  sent = [];
}

ids_differ : ◌≢◌ {A = String} "i1" "i2"
ids_differ = ground (arith, eq_iff "i1" "i2")

late_office-HasOneRowEach : HasOneRowEach late_office.db
late_office-HasOneRowEach a b (inl e) (inl f) h = e ∙ sym f
late_office-HasOneRowEach a b (inl e) (inr (inr x)) h = absurd x
late_office-HasOneRowEach a b (inr (inl e)) (inr (inr x)) h = absurd x
late_office-HasOneRowEach a b (inr (inr x)) n h = absurd x
late_office-HasOneRowEach a b (inl e) (inr (inl f)) h = absurd (
    ids_differ
      (ap (λ (x : WorkflowInstance). x.id) (sym e) ∙ h ∙ ap (λ (x : WorkflowInstance). x.id) f))
late_office-HasOneRowEach a b (inr (inl e)) (inl f) h = absurd (
    ids_differ
      (ap (λ (x : WorkflowInstance). x.id) (sym f) ∙ sym h ∙ ap (λ (x : WorkflowInstance). x.id) e))
late_office-HasOneRowEach a b (inr (inl e)) (inr (inl f)) h = e ∙ sym f

check_sla_violations-spares_example :
    In suspended_case (check_sla_violations watch late_office).1.db.instances
check_sla_violations-spares_example =
    check_sla_violations-spares watch late_office suspended_case late_office-HasOneRowEach
      (inr (inl refl)) refl

process_escalation_records_example :
    ((next_level watch late_case case_workflow ≡ none)
      × (process_escalation watch (load late_office.db late_case) late_office
          ≡ (late_office, none)))
    ⊎ ((e : EscalationLevel) × (next_level watch late_case case_workflow ≡ some e)
        × (e.level ≡ suc late_case.escalation_level)
        × ((process_escalation watch (load late_office.db late_case) late_office).0.violations
            ≡ late_office.violations ++ violation_at watch late_case e ∷ []))
process_escalation_records_example =
    process_escalation_records watch (load late_office.db late_case) case_workflow late_office refl

-- The first breach of a level 0 case is told to its starter and to u9, in its old level.
sweep_tells_two :
    (check_sla_violations watch late_office).1.sent
    ≡ (record {
      tenant_id = "t1";
      recipient_id = "u1";
      instance_id = "i1";
      urgent = false;
      escalation_level = 0;
    })
      ∷ (record {
        tenant_id = "t1";
        recipient_id = "u9";
        instance_id = "i1";
        urgent = false;
        escalation_level = 0;
      })
      ∷ []
unfolding check_sla_violations run_tenant_bound_sweep process_escalation execute_escalation_actions
    notify_recipients
sweep_tells_two = refl
