-- ===== src/Workflow/Engine/Prepare/Rows.antt =====
-- The rows that `transition` in src/workflow/workflow.service.ts is prepared from: the instance, and
-- the signature of the actor.
use meru_core.Base.{
  String, Option, some, ◌≡◌, ◌≢◌, refl, sym, subst, true, ◌&&◌, ◌==◌, inl, inr, arith, eq_iff,
  find?, In, find?-eq-some, ok, Bool-cases, Option-cases,
}
use meru_core.Workflow.Types.{WorkflowTransition, WorkflowInstance, SignOff, User, Db}
use meru_core.Workflow.Engine.Lookup.{Loaded, load, has_id, find_instance}
use meru_core.Workflow.Engine.Gates.{TransitionRequest, sign_off}

-- The instance that is found is a row of the tenant with that id, joined to its rows.
pub record Found (id tenant_id : String) (db : Db) (l : Loaded) : Type 0 where
  pub first : find? (has_id id tenant_id) db.instances ≡ some l.row
  pub joined : l ≡ load db l.row
  pub listed : In l.row db.instances
  pub has_its_id : l.row.id ≡ id
  pub has_its_tenant : l.row.tenant_id ≡ tenant_id

pub Found-load :
    (id tenant_id : String) (db : Db) (i : WorkflowInstance)
    → find? (has_id id tenant_id) db.instances ≡ some i
    → Found id tenant_id db (load db i)
Found-load id tenant_id db i e =
    let (m, q) = find?-eq-some (has_id id tenant_id) db.instances i e in
    record {
      first = e;
      joined = refl;
      listed = m;
      has_its_id = ground (arith, eq_iff i.id id);
      has_its_tenant = ground (arith, eq_iff i.id id, eq_iff i.tenant_id tenant_id);
    }

pub find_instance-Found :
    (id tenant_id : String) (db : Db) (l : Loaded)
    → find_instance id tenant_id db ≡ ok l
    → Found id tenant_id db l
unfolding find_instance
find_instance-Found id tenant_id db l e =
    elim (Option-cases (find? (has_id id tenant_id) db.instances)) [
      | inl h ↦ cc (rw h at e)
      | inr (i, h) ↦
          let same : ok (load db i) ≡ ok l = rw h at e in
          let loaded : load db i ≡ l = cc same in
          subst (Found id tenant_id db) loaded (Found-load id tenant_id db i h)
    ]

-- A signature is the actor's, with a credential that the actor's row carries at that moment.
pub record IsSigned (req : TransitionRequest) (i : WorkflowInstance) (db : Db) (s : SignOff)
    : Type 0 where
  pub by_actor : s.by ≡ req.user_id
  pub real : s.credential ≢ ""
  pub user : User
  pub known : In user db.users
  pub is_actor : user.id ≡ req.user_id
  pub same_tenant : user.tenant_id ≡ i.tenant_id
  pub carried : user.practitioner_credential ≡ some s.credential

pub sign_off-IsSigned :
    (req : TransitionRequest) (i : WorkflowInstance) (t : WorkflowTransition) (db : Db)
    (o : Option SignOff)
    → sign_off req i t.permissions db ≡ ok o
    → t.permissions.requires_sign_off ≡ true
    → (s : SignOff) × (o ≡ some s) × IsSigned req i db s
unfolding sign_off
sign_off-IsSigned req i t db o e h =
    elim (Option-cases (find? (λ u. u.id == req.user_id && u.tenant_id == i.tenant_id) db.users)) [
      | inl missing ↦ cc (rw (h, missing) at e)
      | inr (u, has_row) ↦ elim (Option-cases u.practitioner_credential) [
        | inl bare ↦ cc (rw (h, has_row, bare) at e)
        | inr (number, held) ↦ elim (Bool-cases (number == "")) [
          | inl empty ↦ cc (rw (h, has_row, held, empty) at e)
          | inr real ↦
              let (m, q) = find?-eq-some _ db.users u has_row in
              let s : SignOff = record {
                by = req.user_id;
                credential_type = u.practitioner_credential_type;
                credential = number;
              } in
              (
                s,
                sym (cc (rw (h, has_row, held, real) at e)),
                record {
                  by_actor = refl;
                  real = ground (arith, eq_iff number "");
                  user = u;
                  known = m;
                  is_actor = ground (arith, eq_iff u.id req.user_id);
                  same_tenant =
                      ground (arith, eq_iff u.id req.user_id, eq_iff u.tenant_id i.tenant_id);
                  carried = held;
                },
              )
        ]
      ]
    ]
