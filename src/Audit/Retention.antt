-- ===== src/Audit/Retention.antt =====
-- `sweep` of src/audit/retention.service.ts. What a pack's section declares is an argument; the years
-- are a whole number.
use meru_core.Base.{
  ℕ, String, Option, none, some, List, [], ◌∷◌, Bool, true, not, ◌==◌, ◌&&◌, if◌then◌else◌, ltb,
  nat_eq, map, filter, length,
}
use meru_core.Audit.Types.{AuditLog, Tools}

pub record Tenant : Type 0 where
  pub id : String
  pub vertical : String

pub record Applied : Type 0 where
  pub tenant_id : String
  pub vertical : String
  pub retention_years : Option ℕ
  pub cutoff : Option ℕ
  pub archived : ℕ

-- `tenantId = …, timestamp < cutoff, archived = false`
abbrev pub is_expired : String → ℕ → AuditLog → Bool
is_expired tenant_id cutoff l = l.tenant_id == tenant_id && ltb l.timestamp cutoff && not l.archived

abbrev pub archive : String → ℕ → AuditLog → AuditLog
archive tenant_id cutoff l =
    if is_expired tenant_id cutoff l then record l { archived = true } else l

-- The period that counts: one that is declared and not 0.
abbrev pub declared : Option ℕ → Option ℕ
declared none = none
declared (some n) = if nat_eq n 0 then none else some n

abbrev pub sweep_tenant : Tools → ℕ → Tenant → Option ℕ → List AuditLog → Applied × List AuditLog
sweep_tenant tools now t none logs = (
  record {
    tenant_id = t.id;
    vertical = t.vertical;
    retention_years = none;
    cutoff = none;
    archived = 0;
  },
  logs,
)
sweep_tenant tools now t (some years) logs =
    let cutoff = tools.years_before years now in
    (
      record {
        tenant_id = t.id;
        vertical = t.vertical;
        retention_years = some years;
        cutoff = some cutoff;
        archived = length (filter (is_expired t.id cutoff) logs);
      },
      map (archive t.id cutoff) logs,
    )

unfoldable pub sweep :
    Tools → ℕ → (String → Option ℕ) → List Tenant → List AuditLog → List Applied × List AuditLog
sweep tools now years [] logs = ([], logs)
sweep tools now years (t ∷ ts) logs =
    let (applied, after) = sweep_tenant tools now t (declared (years t.vertical)) logs in
    let (rest, end_) = sweep tools now years ts after in (applied ∷ rest, end_)
