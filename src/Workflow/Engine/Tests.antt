-- ===== src/Workflow/Engine/Tests.antt =====
-- The engine on the case of `Sample`.
use meru_core.Base.{All, ap, none, [], ◌∷◌, ◌≡◌, ◌≢◌, ◌↔◌, refl, inl, inr, true, In, ok, err}
use meru_core.Access.{Actor, firm_admin, client}
use meru_core.Workflow.Types.{InstanceStatus, Db}
use meru_core.Workflow.Permissions.{check_permissions, MayTake}
use meru_core.Workflow.Permissions.Laws.{check_permissions_iff}
use meru_core.Workflow.Engine.Lookup.{
  instance_not_active, load, find_instance, list_instances, base_matches, owns_instance,
}
use meru_core.Workflow.Engine.Gates.{choose_transition, sign_off, check_arrears, arrears_blocking}
use meru_core.Workflow.Engine.Transition.{prepare, advance, commit, transition}
use meru_core.Workflow.Engine.Commit.{Committed, transition_succeeds, transition-Committed}
use meru_core.Workflow.Engine.Invariant.{
  IsConsistent, AllConsistent, OldOrEntered, transition-AllConsistent,
}
use meru_core.Workflow.Engine.Listing.{In-list_instances_iff}
use meru_core.Workflow.Engine.Terminal.{transition-not_active}
use meru_core.Workflow.Engine.Sample.{
  filed, case_workflow, close_case, open_case, suspended_case, office, env, close_request,
  suspended_request, ready,
}

prepare_close : prepare env close_request office ≡ ok ready
unfolding prepare
prepare_close =
    unfold find_instance choose_transition check_permissions sign_off check_arrears
      arrears_blocking in
    refl

transition_close :
    (transition env close_request office).0
    ≡ ok (
        load
          (commit env close_request ready case_workflow office)
          (advance env close_request ready case_workflow open_case))
transition_close =
    ap (λ r. r.0)
      (transition_succeeds env close_request office ready case_workflow prepare_close refl
        (inl refl))

transition-Committed_example :
    Committed env close_request office
      (load
        (commit env close_request ready case_workflow office)
        (advance env close_request ready case_workflow open_case))
      (transition env close_request office).1
transition-Committed_example =
    transition-Committed env close_request office
      (load (commit env close_request ready case_workflow office)
        (advance env close_request ready case_workflow open_case))
      transition_close

suspended_refused : (transition env suspended_request office).0 ≡ err instance_not_active
unfolding transition prepare
suspended_refused = unfold find_instance in refl

suspended-active_ne : InstanceStatus.suspended ≢ InstanceStatus.active
suspended-active_ne e = cc

transition-not_active_example : In suspended_case (transition env close_request office).1.instances
transition-not_active_example =
    transition-not_active env close_request office suspended_case (refl, (refl, tt))
      (inr (inl refl)) suspended-active_ne

abbrev started : Db
started = record office { instances = open_case ∷ [] }

open_case-IsConsistent : IsConsistent started.states open_case
open_case-IsConsistent = record {
  state = filed;
  in_state = refl;
  status = refl;
  dated = refl;
  history = tt;
}

transition-AllConsistent_example :
    AllConsistent (transition env close_request started).1
    × All (OldOrEntered env started) (transition env close_request started).1.instances
transition-AllConsistent_example =
    transition-AllConsistent env close_request started (open_case-IsConsistent, tt)

abbrev mallory : Actor
mallory = record { id = "u2"; roles = client ∷ []; email = none }

e1-empty_ne : open_case.entity_id ≢ ""
e1-empty_ne e = cc

In-list_instances_iff_example : In open_case (list_instances env "t1" mallory none none office) ↔ (
    In open_case office.instances
    × (base_matches "t1" none none open_case ≡ true)
    × (owns_instance env "t1" mallory office open_case ≡ true))
In-list_instances_iff_example =
    In-list_instances_iff env "t1" mallory none none office open_case e1-empty_ne

check_permissions_iff_example :
    (check_permissions close_case.permissions "u1" (firm_admin ∷ []) ≡ true)
    ↔ MayTake close_case.permissions "u1" (firm_admin ∷ [])
check_permissions_iff_example = check_permissions_iff close_case.permissions "u1" (firm_admin ∷ [])
