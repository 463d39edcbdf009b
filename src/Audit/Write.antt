-- ===== src/Audit/Write.antt =====
-- `logEvent` of src/audit/audit.service.ts, and the calls that name an event: `logCreate`, `logUpdate`,
-- `logDelete`, `logWorkflowTransition`, `logDocumentAccess`. The rows stand in the order in which they
-- were created.
use meru_core.Base.{
  ℕ, String, Option, none, some, List, [], ◌∷◌, ◌++◌, Bool, true, false, not, ◌==◌, if◌then◌else◌,
  leb, filter, includes, get_or, Value, str, obj, Fields, done, field, get_key, ◌+++◌,
}
use meru_core.Audit.Types.{
  AuditAction, create, update, delete, read, download, share, workflow_transition, info, Change,
  AuditLog, LogAuditEvent, Tools, action_name,
}

-- `JSON.stringify(undefined)` is `undefined`.
abbrev pub text_of : Tools → Option Value → Option String
text_of tools none = none
text_of tools (some v) = some (tools.stringify v)

abbrev pub same_text : Option String → Option String → Bool
same_text none none = true
same_text (some s) (some t) = s == t
same_text _ _ = false

abbrev pub keys : Fields → List String
keys done = []
keys (field k v fs) = k ∷ keys fs

-- `new Set([...xs, ...ys])`, in the order of the first occurrences
abbrev pub add_key : List String → String → List String
add_key seen k = if includes seen k then seen else seen ++ k ∷ []

abbrev pub add_keys : List String → List String → List String
add_keys seen [] = seen
add_keys seen (k ∷ ks) = add_keys (add_key seen k) ks

abbrev pub changed : Tools → Fields → Fields → String → Bool
changed tools before after k =
    not (same_text (text_of tools (get_key k before)) (text_of tools (get_key k after)))

abbrev pub changes_at : Tools → Fields → Fields → List String → List Change
changes_at tools before after [] = []
changes_at tools before after (k ∷ ks) =
    let rest = changes_at tools before after ks in
    if changed tools before after k
    then (record { field_name = k; old_value = get_key k before; new_value = get_key k after })
      ∷ rest
    else rest

unfoldable pub calculate_changes : Tools → Option Fields → Option Fields → List Change
calculate_changes tools none after = []
calculate_changes tools (some before) none = []
calculate_changes tools (some before) (some after) =
    changes_at tools before after (add_keys [] (keys before ++ keys after))

-- A key of an object literal whose value is `undefined` is not printed.
abbrev pub with_key : String → Option Value → Fields → Fields
with_key k none fs = fs
with_key k (some v) fs = field k v fs

abbrev pub state_value : Option Fields → Option Value
state_value none = none
state_value (some fs) = some (obj fs)

-- What `generateChecksum` is handed: its two states may be `undefined`, or `null`, or objects.
abbrev pub log_payload :
    Tools → String → ℕ → String → AuditAction → String → Option Value → Option Value → Value
log_payload tools tenant_id timestamp user_id action entity_id before after = obj (
    field "tenantId" (str tenant_id) (
      field "timestamp" (str (tools.to_iso timestamp)) (
        field "userId" (str user_id) (
          field "action" (str (action_name action)) (
            field "entityId" (str entity_id)
              (with_key "beforeState" before (with_key "afterState" after done)))))))

abbrev pub generate_checksum : Tools → Value → String
generate_checksum tools v = tools.sha256 (tools.stringify v)

abbrev pub genesis_hash : Tools → String → String
genesis_hash tools tenant_id = tools.sha256 ("GENESIS:meru:" +++ tenant_id)

unfoldable pub compute_chain_hash :
    Tools → String → String → ℕ → AuditAction → String → String → String → String
compute_chain_hash tools previous tenant_id timestamp action entity_id user_id checksum =
    tools.sha256 (
      previous
      +++ ":"
      +++ tenant_id
      +++ ":"
      +++ tools.to_iso timestamp
      +++ ":"
      +++ action_name action
      +++ ":"
      +++ entity_id
      +++ ":"
      +++ user_id
      +++ ":"
      +++ checksum)

abbrev pub is_of_tenant : String → AuditLog → Bool
is_of_tenant tenant_id l = l.tenant_id == tenant_id

-- `ORDER BY timestamp ASC, "createdAt" ASC`, of rows in the order of their creation
abbrev pub insert_log : AuditLog → List AuditLog → List AuditLog
insert_log l [] = l ∷ []
insert_log l (m ∷ ms) =
    let rest = insert_log l ms in if leb l.timestamp m.timestamp then l ∷ m ∷ ms else m ∷ rest

abbrev pub chronological : List AuditLog → List AuditLog
chronological [] = []
chronological (l ∷ ls) = insert_log l (chronological ls)

abbrev pub chain_of : String → List AuditLog → List AuditLog
chain_of tenant_id logs = chronological (filter (is_of_tenant tenant_id) logs)

-- The hash of the last row, or `start` when there is none or it has no hash.
abbrev pub last_hash : String → List AuditLog → String
last_hash start [] = start
last_hash start (l ∷ []) = get_or l.chain_hash start
last_hash start (l ∷ m ∷ ls) = last_hash start (m ∷ ls)

abbrev pub get_last_chain_hash : Tools → String → List AuditLog → String
get_last_chain_hash tools tenant_id logs =
    last_hash (genesis_hash tools tenant_id) (chain_of tenant_id logs)

-- `dto.context?.[key]`
abbrev pub context_key : String → Option Fields → Option Value
context_key k none = none
context_key k (some fs) = get_key k fs

-- A nullable column of type jsonb
abbrev pub stored_state : Tools → Option Fields → Option Fields
stored_state tools none = none
stored_state tools (some fs) = some (tools.jsonb fs)

-- The row as the table has it, but for the order of the keys within its changes.
unfoldable pub new_log : Tools → String → ℕ → LogAuditEvent → List AuditLog → AuditLog
new_log tools id now e logs =
    let checksum = generate_checksum tools (
      log_payload tools e.tenant_id now e.user_id e.action e.entity_id (state_value e.before_state)
        (state_value e.after_state)) in
    let previous = get_last_chain_hash tools e.tenant_id logs in
    record {
      id = id;
      tenant_id = e.tenant_id;
      vertical = context_key "vertical" e.context;
      environment = context_key "environment" e.context;
      timestamp = now;
      user_id = e.user_id;
      user_email = e.user_email;
      user_role = e.user_role;
      action = e.action;
      entity_type = e.entity_type;
      entity_id = e.entity_id;
      description = e.description;
      severity = get_or e.severity info;
      before_state = stored_state tools e.before_state;
      after_state = stored_state tools e.after_state;
      changes = calculate_changes tools e.before_state e.after_state;
      context = tools.jsonb (get_or e.context done);
      compliance_standard = e.compliance_standard;
      compliance_metadata = tools.jsonb (get_or e.compliance_metadata done);
      checksum = checksum;
      previous_chain_hash = some previous;
      chain_hash = some (
          compute_chain_hash tools previous e.tenant_id now e.action e.entity_id e.user_id
            checksum);
      archived = false;
    }

unfoldable pub log_event : Tools → String → ℕ → LogAuditEvent → List AuditLog → List AuditLog
log_event tools id now e logs = logs ++ new_log tools id now e logs ∷ []

-- The event that the calls below fill in.
abbrev pub filled_event :
    String
    → String
    → AuditAction
    → String
    → String
    → String
    → Option Fields
    → Option Fields
    → Option Fields
    → LogAuditEvent
filled_event tenant_id user_id action entity_type entity_id description before after context =
    record {
      tenant_id = tenant_id;
      user_id = user_id;
      user_email = none;
      user_role = none;
      action = action;
      entity_type = entity_type;
      entity_id = entity_id;
      description = some description;
      severity = none;
      before_state = before;
      after_state = after;
      context = context;
      compliance_standard = none;
      compliance_metadata = none;
    }

-- The arguments of `logCreate`.
abbrev pub create_event : String → String → String → String → Fields → Option Fields → LogAuditEvent
create_event tenant_id user_id entity_type entity_id after context =
    filled_event tenant_id user_id create entity_type entity_id ("Created " +++ entity_type) none
      (some after) context

abbrev pub update_event :
    String → String → String → String → Fields → Fields → Option Fields → LogAuditEvent
update_event tenant_id user_id entity_type entity_id before after context =
    filled_event tenant_id user_id update entity_type entity_id ("Updated " +++ entity_type)
      (some before) (some after) context

abbrev pub delete_event : String → String → String → String → Fields → Option Fields → LogAuditEvent
delete_event tenant_id user_id entity_type entity_id before context =
    filled_event tenant_id user_id delete entity_type entity_id ("Deleted " +++ entity_type)
      (some before) none context

abbrev pub transition_event :
    String → String → String → String → String → Option Fields → LogAuditEvent
transition_event tenant_id user_id instance_id from_state to_state context =
    filled_event tenant_id user_id workflow_transition "workflow_instance" instance_id
      ("Workflow transitioned from " +++ from_state +++ " to " +++ to_state)
      (some (field "state" (str from_state) done)) (some (field "state" (str to_state) done))
      context

pub data Access : Type 0 where
  reads downloads shares : Access

abbrev pub access_action : Access → AuditAction
access_action reads = read
access_action downloads = download
access_action shares = share

abbrev pub access_event : String → String → String → Access → Option Fields → LogAuditEvent
access_event tenant_id user_id document_id access context =
    filled_event tenant_id user_id (access_action access) "document" document_id
      ("Document " +++ action_name (access_action access)) none none context
