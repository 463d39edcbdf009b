-- ===== src/Documents/Outstanding.antt =====
-- What the checklist of src/documents/document-checklist.service.ts promises when nothing is outstanding.
use mathlib.Core.Bool.{false≢true}
use meru_core.Base.{
  subst, >>=-eq-ok, guard-eq-ok, String, some, List, [], ◌∷◌, Bool, true, false, ◌==◌, filter,
  length, is_empty, get_or, ok, guard, ◌≡◌, refl, sym, ap, ◌∙◌, inl, inr, Bool-cases, arith, eq_iff,
  In, In-filter_iff, In-append_cases, In-map,
}
use meru_core.Access.{Actor}
use meru_core.Documents.Ownership.{MayOpen, owns_or_reaches, owns_or_reaches-MayOpen}
use meru_core.Documents.Checklist.{
  ChecklistEnv, Tables, find_record, PackDocumentType, Document, Checklist, is_shown, declared_keys,
  pushed, documents_for, is_linked, item_of, is_outstanding, checklist_items, checklist, for_entity,
  entity_not_found,
}

-- Under the key the document answers to.
abbrev pub Declares : String → Document → Type 0
Declares key d = In key (declared_keys d)

In-pushed :
    (key : String) (d x : Document) (ks : List String)
    → In x (pushed key d ks)
    → (x ≡ d) × In key ks
In-pushed key d x [] m = absurd m
In-pushed key d x (k ∷ ks) m = elim (Bool-cases (k == key)) [
  | inl h ↦
      let same : key ≡ k = sym ((eq_iff k key).0 h) in
      elim (rw h at m) [ inl e ↦ (e, inl same) | inr r ↦ ((In-pushed key d x ks r).0, inl same) ]
  | inr h ↦ let (e, i) = In-pushed key d x ks (rw h at m) in (e, inr i)
]

In-documents_for :
    (key : String) (ds : List Document) (x : Document)
    → In x (documents_for key ds)
    → In x ds × Declares key x
In-documents_for key [] x m = absurd m
In-documents_for key (d ∷ ds) x m =
    elim (In-append_cases (pushed key d (declared_keys d)) (documents_for key ds) x m) [
      | inl p ↦
          let (e, i) = In-pushed key d x (declared_keys d) p in
          (inl e, subst (Declares key) (sym e) i)
      | inr r ↦ let (k, i) = In-documents_for key ds x r in (inr k, i)
    ]

first_of_some : (ds : List Document) → is_empty ds ≡ false → (d : Document) × In d ds
first_of_some [] h = absurd (false≢true (sym h))
first_of_some (d ∷ ds) h = (d, inl refl)

none_left :
    {A : Type 0} (p : A → Bool) (xs : List A) (x : A)
    → length (filter p xs) ≡ 0
    → In x xs
    → p x ≡ false
none_left p [] x h m = absurd m
none_left p (y ∷ ys) x h m = elim (Bool-cases (p y)) [
  | inl q ↦ absurd (omega (arith, rw q at h))
  | inr q ↦ elim m [ inl e ↦ ap p e ∙ q | inr r ↦ none_left p ys x (rw q at h) r ]
]

-- A document that answers to a requirement of a record.
abbrev pub Answers : String → String → String → List Document → Document → Type 0
Answers tenant_id entity_id key table d =
    In d table × (is_linked tenant_id entity_id d ≡ true) × Declares key d

-- Where the checklist of a record says that nothing required is outstanding, the caller reaches the tenant as a
-- whole or owns the record, by assignment or as its subject, and the table has, for each required type of the
-- pack whose condition holds of the record or has none, a document of the tenant that is linked to the record
-- and declares the type's key.
pub for_entity_outstanding :
    (env : ChecklistEnv) (tenant_id v : String) (actor : Actor) (types : List PackDocumentType)
    (tables : Tables) (id : String) (c : Checklist) (t : PackDocumentType)
    → for_entity env tenant_id (some v) actor (some types) tables (some id) ≡ ok c
    → c.outstanding_required ≡ some 0
    → In t types
    → get_or t.required false ≡ true
    → is_shown env.runtime env.now (find_record id tenant_id tables.records) t ≡ true
    → MayOpen env.reach tenant_id id actor tables.records
      × ((d : Document) × Answers tenant_id id t.key tables.documents d)
unfolding for_entity
for_entity_outstanding env tenant_id v actor types tables id c t made zero_left m required shown =
    let docs = filter (is_linked tenant_id id) tables.documents in
    let row = find_record id tenant_id tables.records in
    let opens = owns_or_reaches env.reach tenant_id id actor tables.records in
    let items = checklist_items env.runtime env.now types row (some docs) in
    let (u, owns, gives) = >>=-eq-ok (guard opens entity_not_found) _ made in
    let same : checklist env.runtime env.now types row (some docs) ≡ c = cc in
    let counted : some (length (filter is_outstanding items)) ≡ some 0 =
      ap (λ (x : Checklist). x.outstanding_required) same ∙ zero_left in
    let none_out : length (filter is_outstanding items) ≡ 0 = ap (λ o. get_or o 1) counted in
    let item = item_of env.runtime env.now row (some docs) t in
    let there : In item items =
      In-map (item_of env.runtime env.now row (some docs)) _ t
        ((In-filter_iff (is_shown env.runtime env.now row) types t).1 (m, shown)) in
    let filled : is_empty (documents_for t.key docs) ≡ false =
      ground (arith, required, none_left is_outstanding items item none_out there) in
    let (d, k) = first_of_some (documents_for t.key docs) filled in
    let (inside, declared) = In-documents_for t.key docs d k in
    let (kept, linked) = (In-filter_iff (is_linked tenant_id id) tables.documents d).0 inside in
    (
      owns_or_reaches-MayOpen env.reach tenant_id id actor tables.records
          (guard-eq-ok opens entity_not_found owns),
      (d, (kept, linked, declared)),
    )
