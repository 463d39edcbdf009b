-- ===== src/Pack/Definition/Laws.antt =====
-- What becomes of a pack's conditions in `toDefinition` of src/workflow/services/pack-
-- workflow.service.ts.
use text.Mathlib.TextLemmas.{append-eq-nil_iff}
use meru_core.Base.{
  ℤ, String, Option, some, List, [], ◌∷◌, ◌≡◌, ◌≢◌, refl, ap, subst, false, ◌==◌, inl, inr, eq_iff,
  In, In-append_left, In-append_right, Bool-cases, Fields, Runtime, ◌+++◌,
}
use meru_core.Workflow.Conditions.{evaluate_conditions}
use meru_core.Pack.Condition.{
  failed, Reason, not_an_object, invalid_json, unsupported_syntax, not_a_literal, compile_condition,
}
use meru_core.Pack.Definition.{
  PackTransition, PackStep, PackWorkflow, Unevaluable, reason_text, outgoing, conditions_of,
  transition_def, report_of, step_defs, transition_defs, step_report, report, to_definition,
}

reason_text_ne : (r : Reason) → (reason_text r == "") ≡ false
reason_text_ne not_an_object = refl
reason_text_ne invalid_json = refl
reason_text_ne unsupported_syntax = refl
reason_text_ne (not_a_literal s) = elim (Bool-cases ("not a literal: " +++ s == "")) [
  | inl h ↦ absurd (prefix_ne (append-eq-nil_iff.0 ((eq_iff ("not a literal: " +++ s) "").0 h)).0)
  | inr h ↦ h
]
  where
    prefix_ne : ◌≢◌ {A = String} "not a literal: " ""
    prefix_ne e = cc

uncompiled_never_opens :
    (rt rt' : Runtime) (now : ℤ) (step : PackStep) (t : PackTransition) (reason : Reason)
    (context : Fields)
    → compile_condition rt t.condition ≡ failed reason
    → evaluate_conditions rt' now (transition_def rt step t).conditions context ≡ some false
unfolding transition_def conditions_of evaluate_conditions
uncompiled_never_opens rt rt' now step t reason context e = rw e (rw (reason_text_ne reason))

module _ (rt : Runtime) where
  In-step_defs :
      (step : PackStep) (ts : List PackTransition) (t : PackTransition)
      → In t ts
      → In (transition_def rt step t) (step_defs rt step ts)
  unfolding step_defs
  In-step_defs step [] t m = absurd m
  In-step_defs step (x ∷ ts) t (inl e) = inl (ap (transition_def rt step) e)
  In-step_defs step (x ∷ ts) t (inr m) = inr (In-step_defs step ts t m)

  In-transition_defs :
      (steps : List PackStep) (step : PackStep) (t : PackTransition)
      → In step steps
      → In t (outgoing step)
      → In (transition_def rt step t) (transition_defs rt steps)
  unfolding transition_defs
  In-transition_defs [] step t m k = absurd m
  In-transition_defs (s ∷ steps) step t (inl e) k =
      In-append_left (step_defs rt s (outgoing s)) (transition_defs rt steps)
        (transition_def rt step t)
        (subst (λ (x : PackStep). In (transition_def rt step t) (step_defs rt x (outgoing x))) e
          (In-step_defs step (outgoing step) t k))
  In-transition_defs (s ∷ steps) step t (inr m) k =
      In-append_right (step_defs rt s (outgoing s)) (transition_defs rt steps)
        (transition_def rt step t) (In-transition_defs steps step t m k)

  module _ (pack_id : String) (step : PackStep) (t : PackTransition) (reason : Reason)
      (e : compile_condition rt t.condition ≡ failed reason) where
    abbrev entry : Unevaluable
    entry = record { pack_workflow_id = pack_id; from = step.id; to = t.to; reason = reason }

    In-step_report :
        (ts : List PackTransition) → In t ts → In entry (step_report rt pack_id step ts)
    unfolding step_report
    In-step_report [] m = absurd m
    In-step_report (x ∷ ts) (inl same) =
        let here : compile_condition rt x.condition ≡ failed reason =
          subst (λ (y : PackTransition). compile_condition rt y.condition ≡ failed reason) same e in
        rw here (
          inl (
            ap
              (λ (y : PackTransition). record {
                pack_workflow_id = pack_id;
                from = step.id;
                to = y.to;
                reason = reason;
              })
              same))
    In-step_report (x ∷ ts) (inr m) =
        In-append_right (report_of pack_id step x (compile_condition rt x.condition))
          (step_report rt pack_id step ts) entry (In-step_report ts m)

    In-report :
        (steps : List PackStep)
        → In step steps
        → In t (outgoing step)
        → In entry (report rt pack_id steps)
    unfolding report
    In-report [] m k = absurd m
    In-report (s ∷ steps) (inl same) k =
        In-append_left (step_report rt pack_id s (outgoing s)) (report rt pack_id steps) entry (
          subst (λ (x : PackStep). In entry (step_report rt pack_id x (outgoing x))) same
            (In-step_report (outgoing step) k))
    In-report (s ∷ steps) (inr m) k =
        In-append_right (step_report rt pack_id s (outgoing s)) (report rt pack_id steps) entry
          (In-report steps m k)

-- A transition of a pack whose condition does not compile is reported with its reason, stands in the
-- definition all the same, and its conditions there are false for every runtime, time and context.
pub to_definition_uncompiled :
    (rt : Runtime) (code version : Option String) (def : PackWorkflow) (step : PackStep)
    (t : PackTransition) (reason : Reason)
    → In step def.steps
    → In t (outgoing step)
    → compile_condition rt t.condition ≡ failed reason
    → In
        (record { pack_workflow_id = def.id; from = step.id; to = t.to; reason = reason })
        (to_definition rt code version def).1
      × In (transition_def rt step t) (to_definition rt code version def).0.transitions
      × ((rt' : Runtime) (now : ℤ) (context : Fields)
          → evaluate_conditions rt' now (transition_def rt step t).conditions context ≡ some false)
unfolding to_definition
to_definition_uncompiled rt code version def step t reason m k e = (
  In-report rt def.id step t reason e def.steps m k,
  In-transition_defs rt def.steps step t m k,
  λ rt' now context. uncompiled_never_opens rt rt' now step t reason context e,
)
