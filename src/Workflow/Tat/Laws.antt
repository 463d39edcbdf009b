-- ===== src/Workflow/Tat/Laws.antt =====
-- What the reports of src/workflow/services/tat.service.ts say of service levels.
use meru_core.Base.{
  ℕ, ◌≡◌, refl, ap, subst, String, Option, none, List, [], ◌∷◌, false, inl, inr, if◌then◌else◌, leb,
  map, filter, is_some, get_or, All, All-append, All-map, All-imp, if_elim, ◌==◌, Bool-cases, ok,
  >>=-eq-ok, from_option, find?,
}
use meru_core.Workflow.Types.{WorkflowState, HistoryEntry, WorkflowInstance, Db}
use meru_core.Workflow.Engine.Lookup.{instance_not_found, has_id, find_state}
use meru_core.Workflow.Tat.{
  StageTat, InstanceTat, closed_stages, is_finished, stage_sla, open_stage, compute, for_instance,
}
use meru_core.Workflow.Tat.Aggregate.{
  StageAggregate, Options, add_entry, add_stages, group, is_breach, stage_aggregate, insert_stage,
  sort_stages, computed, aggregate,
}

-- A stage of which it is not known whether it kept its service level.
abbrev pub IsUnjudged : StageTat → Type 0
IsUnjudged s = (s.sla_hours ≡ none) × (s.breached ≡ none)

closed_stages-IsUnjudged :
    (cursor : ℕ) (h : List HistoryEntry) → All IsUnjudged (closed_stages cursor h)
unfolding closed_stages
closed_stages-IsUnjudged cursor [] = tt
closed_stages-IsUnjudged cursor (e ∷ es) = ((refl, refl), closed_stages-IsUnjudged e.timestamp es)

compute-IsUnjudged :
    (now : ℕ) (row : WorkflowInstance) (state : Option WorkflowState)
    → All IsUnjudged
        (compute now (record { row = row; workflow = none; current_state = state })).stages
unfolding compute
compute-IsUnjudged now row state =
    let closed = closed_stages row.created_at row.history in
    let judged_none = closed_stages-IsUnjudged row.created_at row.history in
    elim (Bool-cases (is_finished row.status)) [
      | inl finished ↦ rw finished judged_none
      | inr running ↦ rw running (
          All-append IsUnjudged closed _ judged_none
            (unfold open_stage stage_sla in ((refl, refl), tt)))
    ]

-- The report on one instance judges no stage: the query does not join the workflow, in whose
-- configuration alone the service level is switched on.
pub for_instance-IsUnjudged :
    (now : ℕ) (tenant_id id : String) (db : Db) (t : InstanceTat)
    → for_instance now tenant_id id db ≡ ok t
    → All IsUnjudged t.stages
unfolding for_instance
for_instance-IsUnjudged now tenant_id id db t e =
    let (i, _, k) =
      >>=-eq-ok (from_option instance_not_found (find? (has_id id tenant_id) db.instances)) _ e in
    let same : compute now (record {
      row = i;
      workflow = none;
      current_state = find_state db.states i.current_state_id;
    })
        ≡ t =
      cc k in
    subst (λ (x : InstanceTat). All IsUnjudged x.stages) same
      (compute-IsUnjudged now i (find_state db.states i.current_state_id))

-- Groups of unjudged stages.
abbrev AllUnjudged : List (String × List StageTat) → Type 0
AllUnjudged groups = All (λ (g : String × List StageTat). All IsUnjudged g.1) groups

add_entry-AllUnjudged :
    (s : StageTat) (groups : List (String × List StageTat))
    → IsUnjudged s
    → AllUnjudged groups
    → AllUnjudged (add_entry s groups)
add_entry-AllUnjudged s [] h k = ((h, tt), tt)
add_entry-AllUnjudged s ((name, entries) ∷ groups) h k = elim (Bool-cases (name == s.stage)) [
  | inl same ↦ rw same (All-append IsUnjudged entries (s ∷ []) k.0 (h, tt), k.1)
  | inr other ↦ rw other (k.0, add_entry-AllUnjudged s groups h k.1)
]

add_stages-AllUnjudged :
    (ss : List StageTat) (groups : List (String × List StageTat))
    → All IsUnjudged ss
    → AllUnjudged groups
    → AllUnjudged (add_stages ss groups)
add_stages-AllUnjudged [] groups h k = k
add_stages-AllUnjudged (s ∷ ss) groups h k =
    add_stages-AllUnjudged ss (if s.open_ then groups else add_entry s groups) h.1 (
      if_elim AllUnjudged s.open_ groups (add_entry s groups) k
        (add_entry-AllUnjudged s groups h.0 k))

group-AllUnjudged :
    (ts : List InstanceTat) (groups : List (String × List StageTat))
    → All (λ (t : InstanceTat). All IsUnjudged t.stages) ts
    → AllUnjudged groups
    → AllUnjudged (group ts groups)
group-AllUnjudged [] groups h k = k
group-AllUnjudged (t ∷ ts) groups h k =
    group-AllUnjudged ts (add_stages t.stages groups) h.1
      (add_stages-AllUnjudged t.stages groups h.0 k)

-- An aggregate in which no service level shows.
abbrev pub IsBlank : StageAggregate → Type 0
IsBlank a = (a.sla_hours ≡ none) × (a.breaches ≡ 0) × (a.breach_rate ≡ none)

no_sla :
    (es : List StageTat)
    → All IsUnjudged es
    → filter (λ (e : StageTat). is_some e.sla_hours) es ≡ []
no_sla [] h = refl
no_sla (e ∷ es) h = rw (ap is_some h.0.0) (no_sla es h.1)

none_found :
    (es : List StageTat)
    → All IsUnjudged es
    → find? (λ (e : StageTat). is_some e.sla_hours) es ≡ none
none_found [] h = refl
none_found (e ∷ es) h = rw (ap is_some h.0.0) (none_found es h.1)

no_breach : (es : List StageTat) → All IsUnjudged es → filter is_breach es ≡ []
no_breach [] h = refl
no_breach (e ∷ es) h = rw (ap (λ b. get_or b false) h.0.1) (no_breach es h.1)

stage_aggregate-IsBlank :
    (g : String × List StageTat) → All IsUnjudged g.1 → IsBlank (stage_aggregate g)
unfolding stage_aggregate
stage_aggregate-IsBlank (name, es) h =
    rw (none_found es h, no_breach es h, no_sla es h) (refl, refl, refl)

insert_stage-All :
    (P : StageAggregate → Type 0) (a : StageAggregate) (bs : List StageAggregate)
    → P a
    → All P bs
    → All P (insert_stage a bs)
insert_stage-All P a [] h k = (h, tt)
insert_stage-All P a (b ∷ bs) h k =
    elim (Bool-cases (leb b.averages.mean_hours a.averages.mean_hours)) [
      | inl first ↦ rw first (h, k)
      | inr later ↦ rw later (k.0, insert_stage-All P a bs h k.1)
    ]

sort_stages-All :
    (P : StageAggregate → Type 0) (as_ : List StageAggregate) → All P as_ → All P (sort_stages as_)
sort_stages-All P [] h = tt
sort_stages-All P (a ∷ as_) h =
    insert_stage-All P a (sort_stages as_) h.0 (sort_stages-All P as_ h.1)

everywhere : {A : Type 0} (P : A → Type 0) → ((a : A) → P a) → (xs : List A) → All P xs
everywhere P h [] = tt
everywhere P h (x ∷ xs) = (h x, everywhere P h xs)

-- The aggregate report shows no service level, no breach and no breach rate for any stage, whatever the
-- tables hold.
pub aggregate-IsBlank :
    (now : ℕ) (tenant_id : String) (o : Options) (db : Db)
    → All IsBlank (aggregate now tenant_id o db).stages
unfolding aggregate computed
aggregate-IsBlank now tenant_id o db =
    let tats = computed now tenant_id o db in
    let unjudged : All (λ (t : InstanceTat). All IsUnjudged t.stages) tats =
      All-map (λ (t : InstanceTat). All IsUnjudged t.stages) _ _
        (everywhere _ (λ i. compute-IsUnjudged now i none) _) in
    sort_stages-All IsBlank (map stage_aggregate (group tats [])) (
      All-map IsBlank stage_aggregate (group tats []) (
        All-imp (λ g h. stage_aggregate-IsBlank g h) (group tats [])
          (group-AllUnjudged tats [] unjudged tt)))
