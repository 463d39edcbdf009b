-- ===== src/Documents/Tests.antt =====
-- A record whose passport is in.
use meru_core.Base.{pos, none, some, [], ◌∷◌, ◌≡◌, refl, inl, true, ok, err, done}
use meru_core.Workflow.Engine.Sample.{silent}
use meru_core.Access.{Actor, client, has_tenant_wide_reach, is_god_context, is_tenant_staff}
use meru_core.Documents.Ownership.{RecordRow, MayOpen, owns_or_reaches}
use meru_core.Documents.Checklist.{
  PackDocumentType, Document, Checklist, checklist, ChecklistEnv, Tables, for_entity,
  entity_not_found,
}
use meru_core.Documents.Outstanding.{Answers, for_entity_outstanding}

abbrev passport_type : PackDocumentType
passport_type = record {
  key = "passport";
  label = "Passport";
  required = some true;
  applies_when = none;
  accepted_formats = none;
  max_size_mb = none;
  ai_extraction = none;
}

abbrev scan : Document
scan = record {
  id = "d1";
  tenant_id = "t1";
  linked_entity_id = some "e1";
  name = "scan";
  status = "uploaded";
  created_at = 1;
  document_type_key = none;
  tags = some ("photo" ∷ "passport" ∷ []);
  review_status = "uploaded";
  rejection_reason_key = none;
  rejection_reason_note = none;
}

abbrev around : ChecklistEnv
around = record {
  runtime = silent;
  now = pos 0;
  reach = record { store = none; trim_lower = λ t. t; sql_trim_lower = λ t. t };
}

abbrev applicant : Actor
applicant = record { id = "u1"; roles = client ∷ []; email = some "a@x" }

abbrev own_record : RecordRow
own_record = record {
  entity = record {
    id = "e1";
    tenant_id = "t1";
    assigned_to = some "u9";
    subject_email = some "a@x";
  };
  type = "case";
  status = some "open";
  vertical_attributes = done;
}

abbrev tables : Tables
tables = record { documents = scan ∷ []; records = own_record ∷ [] }

abbrev answer : Checklist
answer = checklist silent (pos 0) (passport_type ∷ []) (some own_record) (some (scan ∷ []))

is_answer :
    for_entity around "t1" (some "visa") applicant (some (passport_type ∷ [])) tables (some "e1")
    ≡ ok answer
unfolding for_entity owns_or_reaches has_tenant_wide_reach is_god_context is_tenant_staff
is_answer = refl

abbrev stranger : Actor
stranger = record { id = "u2"; roles = client ∷ []; email = none }

stranger_refused :
    for_entity around "t1" (some "visa") stranger (some (passport_type ∷ [])) tables (some "e1")
    ≡ err entity_not_found
unfolding for_entity owns_or_reaches has_tenant_wide_reach is_god_context is_tenant_staff
stranger_refused = refl

for_entity_outstanding_example :
    MayOpen around.reach "t1" "e1" applicant tables.records
    × ((d : Document) × Answers "t1" "e1" "passport" (scan ∷ []) d)
for_entity_outstanding_example =
    for_entity_outstanding around "t1" "visa" applicant (passport_type ∷ []) tables "e1" answer
      passport_type is_answer refl (inl refl) refl refl
