-- ===== src/Audit/Tests.antt =====
-- Runs of the audit log of src/audit.
use meru_core.Base.{
  ℕ, sym, ap, ◌∙◌, length, codes, zero, suc, ◌-◌, ◌*◌, String, Option, none, some, is_some, List,
  [], ◌∷◌, ◌≡◌, ◌↔◌, refl, true, false, arith, Fields, Value, null, obj, str, field, done,
}
use meru_core.Audit.Types.{LogAuditEvent, AuditLog, Tools}
use meru_core.Audit.Write.{new_log, log_event, create_event, update_event, keys}
use meru_core.Audit.Read.{is_intact, verify_chain}
use meru_core.Audit.Retention.{Tenant, sweep}
use meru_core.Audit.Chain.{IsChained, verify_chain_iff, Logged, log_all, log_all_untampered}
use meru_core.Audit.Integrity.{CollisionFree, PrintsKeys, PrintsAsStored, new_log-is_intact_iff}
use meru_core.Audit.Archived.{verify_chain-sweep}

-- As many strokes as a number.
abbrev strokes : ℕ → String
strokes zero = String.[]
strokes (suc n) = String.◌∷◌ "1" (strokes n)

length-strokes : (n : ℕ) → length (codes (strokes n)) ≡ n
length-strokes zero = refl
length-strokes (suc n) = ap suc (length-strokes n)

abbrev print : Value → String
print (obj fs) = strokes (length (keys fs))
print _ = "?"

-- A hash that hides nothing, and a printer that shows how many keys an object has.
abbrev tools : Tools
tools = record {
  sha256 = λ s. s;
  stringify = print;
  to_iso = λ t. strokes t;
  jsonb = λ fs. fs;
  years_before = λ years now. now - years * 100;
}

tools-CollisionFree : CollisionFree tools
tools-CollisionFree s t e = e

tools-PrintsKeys : PrintsKeys tools
tools-PrintsKeys a b e =
    sym (length-strokes (length (keys a)))
    ∙ ap (λ s. length (codes s)) e
    ∙ length-strokes (length (keys b))

abbrev state : Fields
state = field "name" (str "a") done

abbrev renamed : Fields
renamed = field "name" null (field "age" null done)

abbrev created : LogAuditEvent
created = create_event "t" "u" "client" "c1" state none

abbrev updated : LogAuditEvent
updated = update_event "t" "u" "client" "c1" state renamed none

new_log-is_intact_iff_example : (is_intact tools (new_log tools "l" 5 created []) ≡ true) ↔ (
    (is_some created.before_state ≡ true)
    × (is_some created.after_state ≡ true)
    × PrintsAsStored tools "l" 5 created [])
new_log-is_intact_iff_example =
    new_log-is_intact_iff tools "l" 5 created [] tools-CollisionFree tools-PrintsKeys

abbrev two_events : List Logged
two_events =
    (record { id = "b"; at = 9; event = updated })
    ∷ (record { id = "a"; at = 5; event = created })
    ∷ []

log_all_untampered_example : (verify_chain tools "t" (log_all tools two_events)).tampered ≡ false
log_all_untampered_example = log_all_untampered tools two_events "t" ((omega arith, tt), (tt, tt))

abbrev first_log : List AuditLog
first_log = log_event tools "a" 5 created []

verify_chain_iff_example :
    ((verify_chain tools "t" first_log).tampered ≡ false) ↔ IsChained tools "t" first_log
verify_chain_iff_example = verify_chain_iff tools "t" first_log

abbrev seven_years : String → Option ℕ
seven_years v = some 7

abbrev tenants : List Tenant
tenants = (record { id = "t"; vertical = "law" }) ∷ []

verify_chain-sweep_example :
    verify_chain tools "t" (sweep tools 5000 seven_years tenants first_log).1
    ≡ verify_chain tools "t" first_log
verify_chain-sweep_example = verify_chain-sweep tools 5000 seven_years tenants first_log "t"
