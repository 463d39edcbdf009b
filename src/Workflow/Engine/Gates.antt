-- ===== src/Workflow/Engine/Gates.antt =====
-- What stands between a request and a transition: the choice of the transition, its permissions, the
-- sign-off gate, and the payment gate with `arrearsBlocking` of src/billing/fee-schedule.service.ts.
use meru_core.Base.{
  ℕ, ◌+◌, String, Option, none, some, List, [], ◌∷◌, Bool, true, false, ◌&&◌, ◌==◌, if◌then◌else◌,
  filter, find?, map, includes, is_empty, length, pos, Fields, Result, ok, err, ◌>>=◌, guard,
  from_option,
}
use meru_core.Workflow.Types.{
  TransitionType, WorkflowTransition, WorkflowState, WorkflowInstance, Permissions, SignOff, User,
  PaymentStatus, PaymentPlan, Payment, Db,
}
use meru_core.Workflow.Conditions.{evaluate_conditions}
use meru_core.Workflow.Engine.Lookup.{
  Error, no_valid_transition, sign_off_required, payments_outstanding, type_error, Env, is_text,
  present,
}

pub record TransitionRequest : Type 0 where
  pub instance_id : String
  pub tenant_id : String
  pub transition_id : Option String
  pub user_id : String
  pub user_email : Option String
  pub user_roles : List String
  -- the job that triggers the transition, if no human does
  pub automated : Option String
  pub automated_reason : Option String
  pub context : Option Fields

keep : Bool → WorkflowTransition → List WorkflowTransition → List WorkflowTransition
keep true t rest = t ∷ rest
keep false t rest = rest

-- `transitions.filter(…)` with a predicate that may throw
unfoldable pub filter_available :
    Env → Fields → List WorkflowTransition → Result Error (List WorkflowTransition)
unfolding keep
filter_available env context [] = ok []
filter_available env context (t ∷ ts) =
    from_option type_error (evaluate_conditions env.runtime (pos env.now) t.conditions context)
    >>= λ open_. filter_available env context ts >>= λ rest. ok (keep open_ t rest)

unfoldable pub compute_available :
    Env → WorkflowInstance → Db → Result Error (List WorkflowTransition)
compute_available env i db = filter_available env i.context (
    filter
      (λ t.
        t.workflow_id == i.workflow_id && (t.from_state_id == i.current_state_id && t.is_active))
      db.transitions)

abbrev pub is_automatic : TransitionType → Bool
is_automatic TransitionType.automatic = true
is_automatic _ = false

abbrev pub is_explicit : String → WorkflowInstance → WorkflowTransition → Bool
is_explicit id i t = t.id == id && (t.from_state_id == i.current_state_id && t.is_active)

-- The first automatic transition that is available.
unfoldable pub choose_automatic : Env → WorkflowInstance → Db → Result Error WorkflowTransition
choose_automatic env i db = do
  available ← compute_available env i db
  from_option no_valid_transition (find? (λ t. is_automatic t.type) available)

-- By its id, from the current state, or else automatically.
unfoldable pub choose_transition :
    Env → Option String → WorkflowInstance → Db → Result Error WorkflowTransition
choose_transition env wanted i db = elim (present wanted) [
  | none ↦ choose_automatic env i db
  | some id ↦ from_option no_valid_transition (find? (is_explicit id i) db.transitions)
]

signed : String → User → Option String → Result Error (Option SignOff)
signed user_id u none = err sign_off_required
signed user_id u (some number) =
    if number == ""
    then err sign_off_required
    else ok (
        some (record {
          by = user_id;
          credential_type = u.practitioner_credential_type;
          credential = number;
        }))

sign : String → Option User → Result Error (Option SignOff)
unfolding signed
sign user_id none = err sign_off_required
sign user_id (some u) = signed user_id u u.practitioner_credential

-- The sign-off gate: a live read of the actor's credential.
unfoldable pub sign_off :
    TransitionRequest → WorkflowInstance → Permissions → Db → Result Error (Option SignOff)
unfolding sign
sign_off req i p db =
    if p.requires_sign_off
    then sign req.user_id (find? (λ u. u.id == req.user_id && u.tenant_id == i.tenant_id) db.users)
    else ok none

abbrev pub is_unpaid : PaymentStatus → Bool
is_unpaid PaymentStatus.pending = true
is_unpaid PaymentStatus.failed = true
is_unpaid _ = false

-- `p.planKey && gating.has(p.planKey)`
gates_plan : List String → Option String → Bool
gates_plan gating none = false
gates_plan gating (some key) = if key == "" then false else includes gating key

unfoldable pub arrears_blocking :
    List PaymentPlan → String → String → String → List Payment → List Payment
unfolding gates_plan
arrears_blocking plans tenant_id entity_id step_key payments =
    let gating = map (λ p. p.key) (filter (λ p. p.block_progress_on_arrears) plans) in
    if is_empty gating
    then []
    else filter (λ p. gates_plan gating p.plan_key)
        (filter
          (λ p.
            p.tenant_id == tenant_id
            && (p.entity_id == entity_id && (is_text p.at_step step_key && is_unpaid p.status)))
          payments)

abbrev total_minor : List Payment → ℕ
total_minor [] = 0
total_minor (p ∷ ps) = p.amount_minor + total_minor ps

unfoldable pub check_arrears : Env → WorkflowInstance → WorkflowState → Db → Result Error (Unit {0})
check_arrears env i state db =
    let blocking =
      arrears_blocking (env.plans i.vertical) i.tenant_id i.entity_id state.name db.payments in
    guard (is_empty blocking) (payments_outstanding (length blocking) (total_minor blocking))
