-- ===== src/Crm/Tests.antt =====
-- An applicant and the record that it is the subject of.
use meru_core.Base.{String, none, some, [], ◌∷◌, ◌≡◌, ◌≢◌, refl, arith, eq_iff}
use meru_core.Access.{Actor, client}
use meru_core.Workflow.Types.{Entity}
use meru_core.Crm.Reach.{CrmEnv, read, can_access, apply_scope, apply_scope-can_access}

abbrev plain_texts : CrmEnv
plain_texts = record { store = none; trim_lower = λ s. s; sql_trim_lower = λ s. s }

abbrev applicant : Actor
applicant = record { id = "u1"; roles = client ∷ []; email = some "a@x" }

abbrev own_record : Entity
own_record = record {
  id = "e1";
  tenant_id = "t1";
  assigned_to = some "u9";
  subject_email = some "a@x";
}

id_is_text : ◌≢◌ {A = String} "u1" ""
id_is_text = ground (arith, eq_iff "u1" "")

apply_scope-can_access_example :
    apply_scope plain_texts applicant own_record ≡ can_access plain_texts own_record applicant read
apply_scope-can_access_example =
    apply_scope-can_access plain_texts applicant own_record id_is_text refl
