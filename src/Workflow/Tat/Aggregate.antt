-- ===== src/Workflow/Tat/Aggregate.antt =====
-- `aggregate` of src/workflow/services/tat.service.ts.
use meru_core.Base.{
  ℕ, zero, suc, ◌+◌, ◌*◌, ◌/◌, String, Option, none, some, List, [], ◌∷◌, ◌++◌, Bool, true, false,
  ◌&&◌, ◌==◌, if◌then◌else◌, leb, filter, find?, map, length, is_empty, is_some, get_or,
}
use meru_core.Workflow.Types.{InstanceStatus, WorkflowInstance, Db}
use meru_core.Workflow.Engine.Lookup.{present, same_status}
use meru_core.Workflow.Tat.{StageTat, InstanceTat, compute, percentile}

pub record Averages : Type 0 where
  pub mean_hours : ℕ
  pub median_hours : ℕ
  pub p90_hours : ℕ

pub record StageAggregate : Type 0 where
  pub stage : String
  pub entries : ℕ
  pub averages : Averages
  pub sla_hours : Option ℕ
  pub breaches : ℕ
  -- in hundredths of a percent
  pub breach_rate : Option ℕ

pub record Options : Type 0 where
  pub workflow_id : Option String
  pub since : Option ℕ
  pub limit : Option ℕ

abbrev sum : List ℕ → ℕ
sum [] = 0
sum (a ∷ as_) = a + sum as_

-- `round(a / b)`
abbrev rounded : ℕ → ℕ → ℕ
rounded a b = (2 * a + b) / (2 * b)

unfoldable pub averages_of : List ℕ → Averages
averages_of hours = record {
  mean_hours = rounded (sum hours) (length hours);
  median_hours = percentile hours 50;
  p90_hours = percentile hours 90;
}

-- `byStage`: the stages in the order in which they are met, each with its entries.
abbrev pub add_entry : StageTat → List (String × List StageTat) → List (String × List StageTat)
add_entry s [] = (s.stage, s ∷ []) ∷ []
add_entry s ((name, entries) ∷ groups) =
    let rest = add_entry s groups in
    if name == s.stage then (name, entries ++ s ∷ []) ∷ groups else (name, entries) ∷ rest

abbrev pub add_stages :
    List StageTat → List (String × List StageTat) → List (String × List StageTat)
add_stages [] groups = groups
add_stages (s ∷ ss) groups = add_stages ss (if s.open_ then groups else add_entry s groups)

abbrev pub group : List InstanceTat → List (String × List StageTat) → List (String × List StageTat)
group [] groups = groups
group (t ∷ ts) groups = group ts (add_stages t.stages groups)

abbrev pub is_breach : StageTat → Bool
is_breach s = get_or s.breached false

abbrev sla_of : Option StageTat → Option ℕ
sla_of none = none
sla_of (some s) = s.sla_hours

unfoldable pub stage_aggregate : String × List StageTat → StageAggregate
stage_aggregate (name, entries) =
    let with_sla = filter (λ e. is_some e.sla_hours) entries in
    let breaches = length (filter is_breach entries) in
    record {
      stage = name;
      entries = length entries;
      averages = averages_of (map (λ e. e.hours) entries);
      sla_hours = sla_of (find? (λ e. is_some e.sla_hours) entries);
      breaches = breaches;
      breach_rate =
          if is_empty with_sla then none else some (rounded (breaches * 10000) (length with_sla));
    }

-- `sort((a, b) => b.meanHours - a.meanHours)`, which keeps the order of equals
abbrev pub insert_stage : StageAggregate → List StageAggregate → List StageAggregate
insert_stage a [] = a ∷ []
insert_stage a (b ∷ bs) =
    let rest = insert_stage a bs in
    if leb b.averages.mean_hours a.averages.mean_hours then a ∷ b ∷ bs else b ∷ rest

abbrev pub sort_stages : List StageAggregate → List StageAggregate
sort_stages [] = []
sort_stages (a ∷ as_) = insert_stage a (sort_stages as_)

abbrev pub take : {A : Type 0} → ℕ → List A → List A
take zero xs = []
take (suc n) [] = []
take (suc n) (x ∷ xs) = x ∷ take n xs

abbrev is_of_workflow : Option String → WorkflowInstance → Bool
is_of_workflow none i = true
is_of_workflow (some id) i = i.workflow_id == id

abbrev is_since : Option ℕ → WorkflowInstance → Bool
is_since none i = true
is_since (some t) i = leb t i.created_at

-- `Math.min(limit ?? 500, 2000)`
abbrev cap : Option ℕ → ℕ
cap limit = let n = get_or limit 500 in if leb n 2000 then n else 2000

-- The rows, joined to nothing.
unfoldable pub computed : ℕ → String → Options → Db → List InstanceTat
computed now tenant_id o db =
    map (λ i. compute now (record { row = i; workflow = none; current_state = none }))
      (take (cap o.limit) (
        filter
          (λ i.
            i.tenant_id == tenant_id
            && (is_of_workflow (present o.workflow_id) i && is_since o.since i))
          db.instances))

pub record Aggregate : Type 0 where
  pub workflow_id : Option String
  pub instances : ℕ
  pub stages : List StageAggregate
  pub overall : Option Averages

abbrev overall_of : List ℕ → Option Averages
overall_of [] = none
overall_of (h ∷ hs) = some (averages_of (h ∷ hs))

unfoldable pub aggregate : ℕ → String → Options → Db → Aggregate
aggregate now tenant_id o db =
    let all_tats = computed now tenant_id o db in
    record {
      workflow_id = o.workflow_id;
      instances = length all_tats;
      stages = sort_stages (map stage_aggregate (group all_tats []));
      overall = overall_of (
          map (λ t. t.total_hours)
            (filter (λ t. same_status t.row.status InstanceStatus.completed) all_tats));
    }
