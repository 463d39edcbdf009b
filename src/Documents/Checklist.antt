-- ===== src/Documents/Checklist.antt =====
-- src/documents/document-checklist.service.ts. Of a document type and of a document, what the service reads;
-- the pack and its section are arguments.
use meru_core.Base.{
  ℕ, ℤ, String, Option, none, some, List, [], ◌∷◌, ◌++◌, Bool, true, false, not, ◌==◌, ◌&&◌,
  if◌then◌else◌, filter, map, length, is_empty, get_or, Runtime, Value, Fields, str, null, Result,
  ok, err, guard, ◌>>◌, is_null, find?,
}
use meru_core.Access.{Actor}
use meru_core.Common.Merge.{put}
use meru_core.Crm.Reach.{CrmEnv}
use meru_core.Documents.Ownership.{RecordRow, owns_or_reaches}
use meru_core.Rules.Augment.{matches}

pub record AiExtraction : Type 0 where
  pub enabled : Option Bool
  pub fields : Option (List String)

pub record PackDocumentType : Type 0 where
  pub key : String
  pub label : String
  pub required : Option Bool
  pub applies_when : Option Value
  pub accepted_formats : Option (List String)
  pub max_size_mb : Option ℕ
  pub ai_extraction : Option AiExtraction

pub record Document : Type 0 where
  pub id : String
  pub tenant_id : String
  pub linked_entity_id : Option String
  pub name : String
  pub status : String
  pub created_at : ℕ
  pub document_type_key : Option String
  pub tags : Option (List String)
  pub review_status : String
  pub rejection_reason_key : Option String
  pub rejection_reason_note : Option String

-- A document as an item lists it.
pub record ListedDocument : Type 0 where
  pub id : String
  pub name : String
  pub status : String
  pub uploaded_at : ℕ
  pub review_status : String
  pub rejection_reason_key : Option String
  pub rejection_reason_note : Option String

pub record ChecklistItem : Type 0 where
  pub key : String
  pub label : String
  pub required : Bool
  pub accepted_formats : List String
  pub max_size_mb : Option ℕ
  pub extraction : Option (Bool × List String)
  pub uploaded : Option Bool
  pub conditional : Bool
  pub applies : Option Bool
  pub documents : List ListedDocument

pub record Checklist : Type 0 where
  pub items : List ChecklistItem
  pub outstanding_required : Option ℕ

pub data ChecklistError : Type 0 where
  no_vertical no_pack entity_not_found : ChecklistError

abbrev pub text_or_null : Option String → Value
text_or_null none = null
text_or_null (some s) = str s

-- `{ ...verticalAttributes, type, status }`
abbrev pub context_of : RecordRow → Fields
context_of e =
    put "status" (some (text_or_null e.status))
      (put "type" (some (str e.type)) e.vertical_attributes)

-- A condition that is there and not null.
abbrev pub condition_of : PackDocumentType → Option Value
condition_of t = set_or_none t.applies_when
  where
    set_or_none : Option Value → Option Value
    set_or_none none = none
    set_or_none (some v) = if is_null v then none else some v

-- Whether a condition holds, none where there is no record to ask.
abbrev pub applies_to : Runtime → ℤ → Option RecordRow → Option Value → Option Bool
applies_to rt now entity none = some true
applies_to rt now none (some rule) = none
applies_to rt now (some e) (some rule) = some (matches rt now (some rule) (context_of e))

abbrev pub is_shown : Runtime → ℤ → Option RecordRow → PackDocumentType → Bool
is_shown rt now entity t = get_or (applies_to rt now entity (condition_of t)) true

abbrev pub declared_keys : Document → List String
declared_keys d = named d.document_type_key
  where
    named : Option String → List String
    named none = get_or d.tags []
    named (some k) = if k == "" then get_or d.tags [] else k ∷ []

-- Once for each of the document's keys that is this one.
abbrev pub pushed : String → Document → List String → List Document
pushed key d [] = []
pushed key d (k ∷ ks) = let rest = pushed key d ks in if k == key then d ∷ rest else rest

abbrev pub documents_for : String → List Document → List Document
documents_for key [] = []
documents_for key (d ∷ ds) = pushed key d (declared_keys d) ++ documents_for key ds

abbrev pub is_linked : String → String → Document → Bool
is_linked tenant_id entity_id d = d.tenant_id == tenant_id && links d.linked_entity_id
  where
    links : Option String → Bool
    links none = false
    links (some e) = e == entity_id

abbrev pub extraction_of : Option AiExtraction → Option (Bool × List String)
extraction_of none = none
extraction_of (some x) = some (get_or x.enabled false, get_or x.fields [])

abbrev pub listed_document : Document → ListedDocument
listed_document d = record {
  id = d.id;
  name = d.name;
  status = d.status;
  uploaded_at = d.created_at;
  review_status = d.review_status;
  rejection_reason_key = d.rejection_reason_key;
  rejection_reason_note = d.rejection_reason_note;
}

abbrev pub item_of :
    Runtime → ℤ → Option RecordRow → Option (List Document) → PackDocumentType → ChecklistItem
item_of rt now entity docs t = record {
  key = t.key;
  label = t.label;
  required = get_or t.required false;
  accepted_formats = get_or t.accepted_formats [];
  max_size_mb = t.max_size_mb;
  extraction = extraction_of t.ai_extraction;
  uploaded = is_uploaded docs;
  conditional = is_conditional (condition_of t);
  applies = applies_to rt now entity (condition_of t);
  documents = map listed_document (documents_for t.key (get_or docs []));
}
  where
    is_uploaded : Option (List Document) → Option Bool
    is_uploaded none = none
    is_uploaded (some ds) = some (not (is_empty (documents_for t.key ds)))

    is_conditional : Option Value → Bool
    is_conditional none = false
    is_conditional (some v) = true

abbrev pub is_outstanding : ChecklistItem → Bool
is_outstanding i = i.required && not (get_or i.uploaded false)

abbrev pub checklist_items :
    Runtime
    → ℤ
    → List PackDocumentType
    → Option RecordRow
    → Option (List Document)
    → List ChecklistItem
checklist_items rt now types entity docs =
    map (item_of rt now entity docs) (filter (is_shown rt now entity) types)

abbrev pub checklist :
    Runtime → ℤ → List PackDocumentType → Option RecordRow → Option (List Document) → Checklist
checklist rt now types entity none = record {
  items = checklist_items rt now types none none;
  outstanding_required = none;
}
checklist rt now types entity (some docs) =
    let items = checklist_items rt now types entity (some docs) in
    record { items = items; outstanding_required = some (length (filter is_outstanding items)) }

-- What the service finds around it: the rule evaluator's runtime, the clock, and what decides on reach.
pub record ChecklistEnv : Type 0 where
  pub runtime : Runtime
  pub now : ℤ
  pub reach : CrmEnv

-- The tables of documents and of records.
pub record Tables : Type 0 where
  pub documents : List Document
  pub records : List RecordRow

abbrev pub find_record : String → String → List RecordRow → Option RecordRow
find_record id tenant_id rows =
    find? (λ r. r.entity.id == id && r.entity.tenant_id == tenant_id) rows

abbrev pub for_asked :
    ChecklistEnv
    → String
    → Actor
    → List PackDocumentType
    → Tables
    → Option String
    → Result ChecklistError Checklist
for_asked env tenant_id actor types tables none = ok (checklist env.runtime env.now types none none)
for_asked env tenant_id actor types tables (some id) =
    guard (owns_or_reaches env.reach tenant_id id actor tables.records) entity_not_found
    >> ok (
        checklist env.runtime env.now types (find_record id tenant_id tables.records)
          (some (filter (is_linked tenant_id id) tables.documents)))

-- The vertical of the tenant, the document types of its pack, and the id of the record that is asked for,
-- if one is; an id that is empty is none.
unfoldable pub for_entity :
    ChecklistEnv
    → String
    → Option String
    → Actor
    → Option (List PackDocumentType)
    → Tables
    → Option String
    → Result ChecklistError Checklist
for_entity env tenant_id none actor types tables id = err no_vertical
for_entity env tenant_id (some v) actor none tables id = err no_pack
for_entity env tenant_id (some v) actor (some types) tables id =
    for_asked env tenant_id actor types tables id
