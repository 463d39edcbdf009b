-- ===== src/Audit/Read.antt =====
-- What src/audit/audit.service.ts reads of the log: `queryLogs`, `getEntityHistory`, `getUserActivity`,
-- `verifyLogIntegrity`, `verifyChain`, `verifyTenantLogs`, `getComplianceReport`, `convertToXML`.
use meru_core.Base.{
  ℕ, zero, suc, String, Option, none, some, List, [], ◌∷◌, Bool, true, false, ◌==◌, ◌||◌, ◌&&◌,
  if◌then◌else◌, leb, nat_eq, filter, find?, map, includes, length, get_or, Value, null, obj,
  Fields, Result, ok, from_option, ◌>>=◌,
}
use meru_core.Audit.Types.{
  read, download, ComplianceStandard, AuditLog, AuditQuery, Tools, action_name, severity_name,
  standard_name,
}
use meru_core.Audit.Write.{
  log_payload, generate_checksum, genesis_hash, compute_chain_hash, is_of_tenant, chronological,
  chain_of,
}

-- `if (value) where.column = value`
abbrev pub asked_text : Option String → String → Bool
asked_text none column = true
asked_text (some s) column = s == "" || column == s

abbrev pub equals_asked : {A : Type 0} → (A → String) → Option A → Option A → Bool
equals_asked name none column = true
equals_asked name (some a) none = false
equals_asked name (some a) (some b) = name b == name a

-- `Between(start, end)`
abbrev pub between : ℕ → ℕ → ℕ → Bool
between from to t = leb from t && leb t to

-- A period is equals_asked for only when it has both its ends.
abbrev pub in_period : Option ℕ → Option ℕ → ℕ → Bool
in_period (some from) (some to) t = between from to t
in_period _ _ t = true

abbrev pub is_asked : AuditQuery → AuditLog → Bool
is_asked q l =
    l.tenant_id == q.tenant_id
    && in_period q.start_date q.end_date l.timestamp
    && asked_text q.user_id l.user_id
    && equals_asked action_name q.action (some l.action)
    && asked_text q.entity_type l.entity_type
    && asked_text q.entity_id l.entity_id
    && equals_asked severity_name q.severity (some l.severity)
    && equals_asked standard_name q.compliance_standard l.compliance_standard

-- `ORDER BY timestamp DESC`
abbrev pub insert_latest : AuditLog → List AuditLog → List AuditLog
insert_latest l [] = l ∷ []
insert_latest l (m ∷ ms) =
    let rest = insert_latest l ms in if leb m.timestamp l.timestamp then l ∷ m ∷ ms else m ∷ rest

abbrev pub latest_first : List AuditLog → List AuditLog
latest_first [] = []
latest_first (l ∷ ls) = insert_latest l (latest_first ls)

abbrev pub drop_logs : ℕ → List AuditLog → List AuditLog
drop_logs zero ls = ls
drop_logs (suc n) [] = []
drop_logs (suc n) (l ∷ ls) = drop_logs n ls

abbrev pub first_logs : ℕ → List AuditLog → List AuditLog
first_logs zero ls = []
first_logs (suc n) [] = []
first_logs (suc n) (l ∷ ls) = l ∷ first_logs n ls

pub record LogPage : Type 0 where
  pub logs : List AuditLog
  pub total : ℕ

-- `query.limit || 100`
abbrev pub limit_of : Option ℕ → ℕ
limit_of none = 100
limit_of (some n) = if nat_eq n 0 then 100 else n

unfoldable pub query_logs : AuditQuery → List AuditLog → LogPage
query_logs q logs =
    let rows = latest_first (filter (is_asked q) logs) in
    record {
      logs = first_logs (limit_of q.limit) (drop_logs (get_or q.offset 0) rows);
      total = length rows;
    }

abbrev pub is_about : String → String → String → AuditLog → Bool
is_about tenant_id entity_type entity_id l =
    l.tenant_id == tenant_id && l.entity_type == entity_type && l.entity_id == entity_id

unfoldable pub get_entity_history : String → String → String → List AuditLog → List AuditLog
get_entity_history tenant_id entity_type entity_id logs =
    chronological (filter (is_about tenant_id entity_type entity_id) logs)

unfoldable pub get_user_activity : String → String → ℕ → ℕ → List AuditLog → List AuditLog
get_user_activity tenant_id user_id from to logs = latest_first (
    filter (λ l. l.tenant_id == tenant_id && l.user_id == user_id && between from to l.timestamp)
      logs)

-- A column that is NULL is read as `null`.
abbrev pub column_value : Option Fields → Option Value
column_value none = some null
column_value (some fs) = some (obj fs)

abbrev pub expected_checksum : Tools → AuditLog → String
expected_checksum tools l = generate_checksum tools (
    log_payload tools l.tenant_id l.timestamp l.user_id l.action l.entity_id
      (column_value l.before_state) (column_value l.after_state))

abbrev pub is_intact : Tools → AuditLog → Bool
is_intact tools l = l.checksum == expected_checksum tools l

pub data AuditError : Type 0 where
  log_not_found : AuditError

unfoldable pub verify_log_integrity : Tools → String → List AuditLog → Result AuditError Bool
verify_log_integrity tools id logs =
    from_option log_not_found (find? (λ l. l.id == id) logs) >>= λ l. ok (is_intact tools l)

pub record ChainReport : Type 0 where
  pub tampered : Bool
  pub total : ℕ
  pub valid : ℕ
  pub first_broken_at : Option String

abbrev pub is_hash : Option String → String → Bool
is_hash none h = false
is_hash (some g) h = g == h

abbrev pub expected_hash : Tools → String → AuditLog → String
expected_hash tools running l =
    compute_chain_hash tools running l.tenant_id l.timestamp l.action l.entity_id l.user_id
      l.checksum

-- The row continues a chain that stands at the hash `running`.
abbrev pub continues : Tools → String → AuditLog → Bool
continues tools running l =
    is_hash l.chain_hash (expected_hash tools running l) && is_hash l.previous_chain_hash running

abbrev pub walk_chain : Tools → ℕ → String → ℕ → List AuditLog → ChainReport
walk_chain tools total running valid [] = record {
  tampered = false;
  total = total;
  valid = valid;
  first_broken_at = none;
}
walk_chain tools total running valid (l ∷ ls) =
    let rest = walk_chain tools total (get_or l.chain_hash running) (suc valid) ls in
    if continues tools running l
    then rest
    else record { tampered = true; total = total; valid = valid; first_broken_at = some l.id }

unfoldable pub verify_chain : Tools → String → List AuditLog → ChainReport
verify_chain tools tenant_id logs =
    let chain = chain_of tenant_id logs in
    walk_chain tools (length chain) (genesis_hash tools tenant_id) 0 chain

pub record IntegrityReport : Type 0 where
  pub total : ℕ
  pub valid : ℕ
  pub invalid : ℕ
  pub invalid_log_ids : List String

-- Each row of the loop is looked up by its id again; the ids are distinct.
abbrev pub invalid_ids : Tools → List AuditLog → List String
invalid_ids tools [] = []
invalid_ids tools (l ∷ ls) =
    let rest = invalid_ids tools ls in if is_intact tools l then rest else l.id ∷ rest

unfoldable pub verify_tenant_logs : Tools → String → List AuditLog → IntegrityReport
verify_tenant_logs tools tenant_id logs =
    let rows = filter (is_of_tenant tenant_id) logs in
    record {
      total = length rows;
      valid = length (filter (is_intact tools) rows);
      invalid = length (invalid_ids tools rows);
      invalid_log_ids = invalid_ids tools rows;
    }

-- `acc[key] = (acc[key] || 0) + 1`
abbrev pub tally : String → List (String × ℕ) → List (String × ℕ)
tally k [] = (k, 1) ∷ []
tally k ((j, n) ∷ ts) = let rest = tally k ts in if j == k then (j, suc n) ∷ ts else (j, n) ∷ rest

abbrev pub tally_all : (AuditLog → String) → List (String × ℕ) → List AuditLog → List (String × ℕ)
tally_all key acc [] = acc
tally_all key acc (l ∷ ls) = tally_all key (tally (key l) acc) ls

abbrev pub distinct_texts : List String → List String
distinct_texts [] = []
distinct_texts (x ∷ xs) = let rest = distinct_texts xs in if includes rest x then rest else x ∷ rest

pub record ComplianceReport : Type 0 where
  pub total_events : ℕ
  pub by_action : List (String × ℕ)
  pub by_severity : List (String × ℕ)
  pub access_count : ℕ
  pub unique_users : ℕ
  pub unique_entities : ℕ
  pub integrity_status : IntegrityReport

abbrev pub is_access : AuditLog → Bool
is_access l =
    action_name l.action == action_name read || action_name l.action == action_name download

abbrev pub is_reported : String → ComplianceStandard → ℕ → ℕ → AuditLog → Bool
is_reported tenant_id standard from to l =
    l.tenant_id == tenant_id
    && equals_asked standard_name (some standard) l.compliance_standard
    && between from to l.timestamp

unfoldable pub get_compliance_report :
    Tools → String → ComplianceStandard → ℕ → ℕ → List AuditLog → ComplianceReport
get_compliance_report tools tenant_id standard from to logs =
    let rows = filter (is_reported tenant_id standard from to) logs in
    let access = filter is_access rows in
    record {
      total_events = length rows;
      by_action = tally_all (λ l. action_name l.action) [] rows;
      by_severity = tally_all (λ l. severity_name l.severity) [] rows;
      access_count = length access;
      unique_users = length (distinct_texts (map (λ l. l.user_id) access));
      unique_entities = length (distinct_texts (map (λ l. l.entity_id) access));
      integrity_status = verify_tenant_logs tools tenant_id logs;
    }
