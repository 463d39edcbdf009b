-- ===== src/Audit/Types.antt =====
-- src/audit/entities/audit-log.entity.ts and the arguments of src/audit/audit.service.ts. A date is a
-- count of milliseconds.
use meru_core.Base.{ℕ, String, Option, List, Bool, Fields, Value}

pub data AuditAction : Type 0 where
  create update delete read login logout export download share approve reject : AuditAction
  workflow_transition invite_issued invite_resent password_reset_requested : AuditAction
  token_redeemed session_revoked role_changed status_changed : AuditAction

pub data AuditSeverity : Type 0 where
  info warning error critical : AuditSeverity

pub data ComplianceStandard : Type 0 where
  gdpr hipaa sox pci_dss iso27001 : ComplianceStandard

pub record Change : Type 0 where
  pub field_name : String
  pub old_value : Option Value
  pub new_value : Option Value

pub record AuditLog : Type 0 where
  pub id : String
  pub tenant_id : String
  pub vertical : Option Value
  pub environment : Option Value
  pub timestamp : ℕ
  pub user_id : String
  pub user_email : Option String
  pub user_role : Option String
  pub action : AuditAction
  pub entity_type : String
  pub entity_id : String
  pub description : Option String
  pub severity : AuditSeverity
  pub before_state : Option Fields
  pub after_state : Option Fields
  pub changes : List Change
  pub context : Fields
  pub compliance_standard : Option ComplianceStandard
  pub compliance_metadata : Fields
  pub checksum : String
  pub previous_chain_hash : Option String
  pub chain_hash : Option String
  pub archived : Bool

pub record LogAuditEvent : Type 0 where
  pub tenant_id : String
  pub user_id : String
  pub user_email : Option String
  pub user_role : Option String
  pub action : AuditAction
  pub entity_type : String
  pub entity_id : String
  pub description : Option String
  pub severity : Option AuditSeverity
  pub before_state : Option Fields
  pub after_state : Option Fields
  pub context : Option Fields
  pub compliance_standard : Option ComplianceStandard
  pub compliance_metadata : Option Fields

pub record AuditQuery : Type 0 where
  pub tenant_id : String
  pub start_date : Option ℕ
  pub end_date : Option ℕ
  pub user_id : Option String
  pub action : Option AuditAction
  pub entity_type : Option String
  pub entity_id : Option String
  pub severity : Option AuditSeverity
  pub compliance_standard : Option ComplianceStandard
  pub limit : Option ℕ
  pub offset : Option ℕ

-- What the log relies on: `sha256` in hexadecimal, `JSON.stringify`, `toISOString`, the object that a
-- column of type jsonb gives back, whose keys need not stand in the order in which they were written, and
-- the date so many calendar years before another.
pub record Tools : Type 0 where
  pub sha256 : String → String
  pub stringify : Value → String
  pub to_iso : ℕ → String
  pub jsonb : Fields → Fields
  pub years_before : ℕ → ℕ → ℕ

abbrev pub action_name : AuditAction → String
action_name create = "create"
action_name update = "update"
action_name delete = "delete"
action_name read = "read"
action_name login = "login"
action_name logout = "logout"
action_name export = "export"
action_name download = "download"
action_name share = "share"
action_name approve = "approve"
action_name reject = "reject"
action_name workflow_transition = "workflow_transition"
action_name invite_issued = "invite_issued"
action_name invite_resent = "invite_resent"
action_name password_reset_requested = "password_reset_requested"
action_name token_redeemed = "token_redeemed"
action_name session_revoked = "session_revoked"
action_name role_changed = "role_changed"
action_name status_changed = "status_changed"

abbrev pub severity_name : AuditSeverity → String
severity_name info = "info"
severity_name warning = "warning"
severity_name error = "error"
severity_name critical = "critical"

abbrev pub standard_name : ComplianceStandard → String
standard_name gdpr = "gdpr"
standard_name hipaa = "hipaa"
standard_name sox = "sox"
standard_name pci_dss = "pci_dss"
standard_name iso27001 = "iso27001"
