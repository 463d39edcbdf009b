-- ===== src/Workflow/Watchdog.antt =====
-- src/workflow/services/sla-watchdog.service.ts: the sweep over the instances that are past their
-- deadline. The escalation levels of a workflow's `slaConfig` and the violations of an instance are
-- kept beside the engine's tables.
pub mod Laws
mod Tests
use meru_core.Base.{
  ℕ, suc, ◌+◌, String, Option, none, some, List, [], ◌∷◌, ◌++◌, Bool, true, false, not, ◌==◌, ◌&&◌,
  if◌then◌else◌, ltb, nat_eq, filter, find?, map, includes, Result, ok, err, ◌>>=◌, Fields, field,
  done, bool,
}
use meru_core.Access.{Actor, system_actor}
use meru_core.Jobs.Sweep.{SweepScope, run_tenant_bound_sweep}
use meru_core.Workflow.Types.{InstanceStatus, Workflow, WorkflowInstance, WorkflowTransition, Db}
use meru_core.Workflow.Engine.Lookup.{
  Error, type_error, Env, Loaded, load, same_status, get_instance,
}
use meru_core.Workflow.Engine.Gates.{TransitionRequest, compute_available}
use meru_core.Workflow.Engine.Transition.{transition, update_where}

pub record EscalationLevel : Type 0 where
  pub level : ℕ
  pub action : String
  pub notify : List String

pub record Violation : Type 0 where
  pub instance_id : String
  pub level : ℕ
  pub timestamp : ℕ
  pub action : String

-- What `sendNotification` is handed, of its texts the escalation level.
pub record Notice : Type 0 where
  pub tenant_id : String
  pub recipient_id : String
  pub instance_id : String
  pub urgent : Bool
  pub escalation_level : ℕ

pub record WatchState : Type 0 where
  pub db : Db
  pub violations : List Violation
  pub sent : List Notice

-- What the watchdog finds around it: the engine's surroundings, the levels of a workflow, and whether a
-- notice can be queued.
pub record WatchEnv : Type 0 where
  pub engine : Env
  pub levels : Workflow → List EscalationLevel
  pub delivers : Notice → Bool

-- `new Set(…)`, in the order of the first occurrences
abbrev pub add_recipient : List String → String → List String
add_recipient seen r = if r == "" then seen else if includes seen r then seen else seen ++ r ∷ []

abbrev pub recipients : WorkflowInstance → List String → List String → List String
recipients i seen [] = seen
recipients i seen (n ∷ ns) =
    recipients i (add_recipient seen (if n == "assignee" then i.started_by else n)) ns

abbrev pub notice : WorkflowInstance → Bool → String → Notice
notice i urgent recipient = record {
  tenant_id = i.tenant_id;
  recipient_id = recipient;
  instance_id = i.id;
  urgent = urgent;
  escalation_level = i.escalation_level;
}

-- A notice that cannot be queued is logged and passed over.
abbrev pub send_all : WatchEnv → WorkflowInstance → Bool → List String → List Notice → List Notice
send_all env i urgent [] sent = sent
send_all env i urgent (r ∷ rs) sent =
    send_all env i urgent rs
      (if env.delivers (notice i urgent r) then sent ++ notice i urgent r ∷ [] else sent)

unfoldable pub notify_recipients :
    WatchEnv → WorkflowInstance → List String → Bool → WatchState → WatchState
notify_recipients env i notify urgent s = record s {
  sent = send_all env i urgent (recipients i [] notify) s.sent;
}

unfoldable pub get_available_transitions :
    Env → String → String → Actor → Db → Result Error (List WorkflowTransition)
get_available_transitions env id tenant_id actor db = do
  loaded ← get_instance env id tenant_id actor db
  compute_available env loaded.row db

-- `.then((available) => available[0]).catch(() => undefined)`
abbrev pub first_or_none : Result Error (List WorkflowTransition) → Option WorkflowTransition
first_or_none (err e) = none
first_or_none (ok []) = none
first_or_none (ok (t ∷ ts)) = some t

abbrev pub auto_request : WorkflowInstance → WorkflowTransition → TransitionRequest
auto_request i t = record {
  instance_id = i.id;
  tenant_id = i.tenant_id;
  transition_id = some t.id;
  user_id = system_actor.id;
  user_email = none;
  user_roles = system_actor.roles;
  automated = some "sla-watchdog:auto_approve";
  automated_reason = some "SLA breach auto-approval";
  context = some (field "autoApprovedBySlaBreach" (bool true) done);
}

abbrev pub thrown_of : {A : Type 0} → Result Error A → Option Error
thrown_of (err e) = some e
thrown_of (ok a) = none

abbrev pub moved : Result Error Loaded × Db → WatchState → WatchState × Option Error
moved (r, db) s = (record s { db = db }, thrown_of r)

abbrev pub auto_approve :
    WatchEnv → WorkflowInstance → Option WorkflowTransition → WatchState → WatchState × Option Error
auto_approve env i none s = (s, none)
auto_approve env i (some t) s = moved (transition env.engine (auto_request i t) s.db) s

abbrev pub set_instance : String → (WorkflowInstance → WorkflowInstance) → WatchState → WatchState
set_instance id f s = record s { db = record s.db { instances = update_where id f s.db.instances } }

abbrev pub cancelled_instance : WorkflowInstance → WorkflowInstance
cancelled_instance i = record i { status = InstanceStatus.cancelled }

-- The `switch` on the action; one that is not known does nothing.
unfoldable pub execute_escalation_actions :
    WatchEnv → WorkflowInstance → EscalationLevel → WatchState → WatchState × Option Error
execute_escalation_actions env i e s =
    if e.action == "notify"
    then (notify_recipients env i e.notify false s, none)
    else if e.action == "escalate"
    then (notify_recipients env i e.notify true s, none)
    else if e.action == "auto_approve"
    then auto_approve env i
        (first_or_none (get_available_transitions env.engine i.id i.tenant_id system_actor s.db)) s
    else if e.action == "cancel"
    then (set_instance i.id cancelled_instance s, none)
    else (s, none)

abbrev pub raised : ℕ → WorkflowInstance → WorkflowInstance
raised level i = record i { escalation_level = level }

-- The instance's new level and its violation, as `update` writes them.
abbrev pub record_violation :
    WatchEnv → WorkflowInstance → EscalationLevel → WatchState → WatchState
record_violation env i e s = record (set_instance i.id (raised e.level) s) {
  violations =
      s.violations
      ++ (record {
        instance_id = i.id;
        level = e.level;
        timestamp = env.engine.now;
        action = e.action;
      })
        ∷ [];
}

abbrev pub escalate :
    WatchEnv → WorkflowInstance → Option EscalationLevel → WatchState → WatchState × Option Error
escalate env i none s = (s, none)
escalate env i (some e) s = execute_escalation_actions env i e (record_violation env i e s)

abbrev pub next_level : WatchEnv → WorkflowInstance → Workflow → Option EscalationLevel
next_level env i w = find? (λ e. nat_eq e.level (suc i.escalation_level)) (env.levels w)

-- `instance.workflow.slaConfig` of an instance whose workflow is not there throws.
abbrev pub process_loaded :
    WatchEnv → WorkflowInstance → Option Workflow → WatchState → WatchState × Option Error
process_loaded env i none s = (s, some type_error)
process_loaded env i (some w) s = escalate env i (next_level env i w) s

unfoldable pub process_escalation : WatchEnv → Loaded → WatchState → WatchState × Option Error
process_escalation env l s = process_loaded env l.row l.workflow s

abbrev pub is_late : ℕ → Option ℕ → Bool
is_late now none = false
is_late now (some deadline) = ltb deadline now

abbrev pub is_violated : ℕ → WorkflowInstance → Bool
is_violated now i = same_status i.status InstanceStatus.active && is_late now i.sla_deadline

unfoldable pub check_sla_violations : WatchEnv → WatchState → SweepScope Error × WatchState
check_sla_violations env s =
    run_tenant_bound_sweep (λ (l : Loaded). l.row.tenant_id) (λ (l : Loaded). l.row.id)
      (process_escalation env)
      (map (load s.db) (filter (is_violated env.engine.now) s.db.instances)) s
