-- ===== src/Documents/Ownership.antt =====
-- `ownedEntityIds` and `assertOwnsEntity` of src/documents/document-access.service.ts. The condition of the
-- query is the one that src/crm/crm-access.service.ts writes.
use meru_core.Base.{
  String, Option, none, some, List, Bool, true, ◌==◌, ◌&&◌, ◌||◌, ◌≡◌, ◌≢◌, refl, ◌⊎◌, inl, inr,
  arith, eq_iff, map, filter, includes, includes_iff, In, In-of_map, In-filter_iff, Bool-cases,
  Fields, ap, sym,
}
use meru_core.Access.{Actor, has_tenant_wide_reach}
use meru_core.Workflow.Types.{Entity}
use meru_core.Crm.Reach.{CrmEnv, own_clause, equals_column, equals_lower}

-- A record, its row for the ownership and what the conditions of a pack read.
pub record RecordRow : Type 0 where
  pub entity : Entity
  pub type : String
  pub status : Option String
  pub vertical_attributes : Fields

abbrev pub owned_ids : CrmEnv → String → Actor → List RecordRow → List String
owned_ids env tenant_id actor rows =
    map (λ r. r.entity.id)
      (filter (λ r. r.entity.tenant_id == tenant_id && own_clause env actor.email actor r.entity)
        rows)

-- `assertOwnsEntity`, as a test
unfoldable pub owns_or_reaches : CrmEnv → String → String → Actor → List RecordRow → Bool
owns_or_reaches env tenant_id entity_id actor rows =
    has_tenant_wide_reach env.store actor || includes (owned_ids env tenant_id actor rows) entity_id

-- The caller is assigned to the record, or its address, which is not empty, is the record's subject.
abbrev pub IsOwner : CrmEnv → Actor → Entity → Type 0
IsOwner env actor e =
    (e.assigned_to ≡ some actor.id)
    ⊎ ((mail : String) × (subject : String) × (actor.email ≡ some mail)
        × (e.subject_email ≡ some subject)
        × (env.trim_lower mail ≢ "")
        × (env.sql_trim_lower subject ≡ env.trim_lower mail))

-- The caller reaches the tenant as a whole, or owns the record of this id in the tenant.
abbrev pub MayOpen : CrmEnv → String → String → Actor → List RecordRow → Type 0
MayOpen env tenant_id entity_id actor rows =
    (has_tenant_wide_reach env.store actor ≡ true)
    ⊎ ((r : RecordRow) × In r rows
        × (r.entity.id ≡ entity_id)
        × (r.entity.tenant_id ≡ tenant_id)
        × IsOwner env actor r.entity)

assigned : (o : Option String) (id : String) → equals_column o id ≡ true → o ≡ some id
assigned none id h = cc
assigned (some s) id h = ap some ((eq_iff s id).0 h)

named :
    (env : CrmEnv) (o : Option String) (mail : String)
    → equals_lower env o mail ≡ true
    → (s : String) × (o ≡ some s) × (env.sql_trim_lower s ≡ mail)
named env none mail h = cc
named env (some s) mail h = (s, refl, (eq_iff (env.sql_trim_lower s) mail).0 h)

clause-IsOwner :
    (env : CrmEnv) (actor : Actor) (e : Entity) (o : Option String)
    → actor.email ≡ o
    → own_clause env o actor e ≡ true
    → IsOwner env actor e
clause-IsOwner env actor e none q h = inl (assigned e.assigned_to actor.id h)
clause-IsOwner env actor e (some mail) q h = elim (Bool-cases (env.trim_lower mail == "")) [
  | inl b ↦ inl (assigned e.assigned_to actor.id (rw b at h))
  | inr b ↦ elim (Bool-cases (equals_column e.assigned_to actor.id)) [
    | inl a ↦ inl (assigned e.assigned_to actor.id a)
    | inr a ↦
        let (s, f, g) = named env e.subject_email (env.trim_lower mail) (rw (b, a) at h) in
        inr (mail, s, q, f, ground (arith, b, eq_iff (env.trim_lower mail) ""), g)
  ]
]

pub owns_or_reaches-MayOpen :
    (env : CrmEnv) (tenant_id entity_id : String) (actor : Actor) (rows : List RecordRow)
    → owns_or_reaches env tenant_id entity_id actor rows ≡ true
    → MayOpen env tenant_id entity_id actor rows
unfolding owns_or_reaches
owns_or_reaches-MayOpen env tenant_id entity_id actor rows h =
    elim (Bool-cases (has_tenant_wide_reach env.store actor)) [
      | inl wide ↦ inl wide
      | inr own ↦
          let mine = λ (r : RecordRow).
            r.entity.tenant_id == tenant_id && own_clause env actor.email actor r.entity in
          let listed =
            (includes_iff (owned_ids env tenant_id actor rows) entity_id).0 (rw own at h) in
          let (r, m, e) =
            In-of_map (λ (x : RecordRow). x.entity.id) (filter mine rows) entity_id listed in
          let (k, q) = (In-filter_iff mine rows r).0 m in
          inr (
            r,
            k,
            sym e,
            ground (arith, q, eq_iff r.entity.tenant_id tenant_id),
            clause-IsOwner env actor r.entity actor.email refl (ground (arith, q)),
          )
    ]
