-- ===== src/Audit/Archived.antt =====
-- The sweep of src/audit/retention.service.ts, and what `verifyChain` finds after it.
use meru_core.Base.{
  ℕ, suc, String, Option, none, some, List, [], ◌∷◌, ◌≡◌, refl, sym, ap, ◌∙◌, Bool, false, ◌==◌,
  ◌&&◌, ◌||◌, filter, map, length, any, Bool-cases, inl, inr, ltb, leb, get_or, arith,
}
use meru_core.Audit.Types.{AuditLog, Tools}
use meru_core.Audit.Write.{is_of_tenant, insert_log, chronological, chain_of, genesis_hash}
use meru_core.Audit.Read.{continues, walk_chain, verify_chain}
use meru_core.Audit.Retention.{Tenant, archive, declared, sweep_tenant, sweep}

-- The row is older than the period that its tenant's pack declares.
abbrev pub outlived : Tools → ℕ → Option ℕ → String → AuditLog → Bool
outlived tools now none tenant_id l = false
outlived tools now (some years) tenant_id l =
    l.tenant_id == tenant_id && ltb l.timestamp (tools.years_before years now)

-- One of the tenants has outlived the row.
abbrev pub outlived_any : Tools → ℕ → (String → Option ℕ) → List Tenant → AuditLog → Bool
outlived_any tools now years ts l =
    any (λ t. outlived tools now (declared (years t.vertical)) t.id l) ts

-- The row with its mark alone set anew.
abbrev pub marked_by : (AuditLog → Bool) → AuditLog → AuditLog
marked_by p l = record l { archived = l.archived || p l }

map-ext :
    (f g : AuditLog → AuditLog)
    → ((l : AuditLog) → f l ≡ g l)
    → (ls : List AuditLog) → map f ls ≡ map g ls
map-ext f g h [] = refl
map-ext f g h (l ∷ ls) = ap (λ x. x ∷ map f ls) (h l) ∙ ap (λ r. g l ∷ r) (map-ext f g h ls)

map-map :
    (f g : AuditLog → AuditLog) (ls : List AuditLog) → map f (map g ls) ≡ map (λ l. f (g l)) ls
map-map f g [] = refl
map-map f g (l ∷ ls) = ap (λ r. f (g l) ∷ r) (map-map f g ls)

map-id :
    (f : AuditLog → AuditLog) → ((l : AuditLog) → f l ≡ l) → (ls : List AuditLog) → map f ls ≡ ls
map-id f h [] = refl
map-id f h (l ∷ ls) = ap (λ x. x ∷ map f ls) (h l) ∙ ap (λ r. l ∷ r) (map-id f h ls)

-- Archiving one tenant's rows sets their marks.
archive_marks :
    (tools : Tools) (now years : ℕ) (t : String) (l : AuditLog)
    → archive t (tools.years_before years now) l ≡ marked_by (outlived tools now (some years) t) l
archive_marks tools now years t l = ground arith

sweep_tenant_marks :
    (tools : Tools) (now : ℕ) (t : Tenant) (o : Option ℕ) (logs : List AuditLog)
    → (sweep_tenant tools now t o logs).1 ≡ map (marked_by (outlived tools now o t.id)) logs
sweep_tenant_marks tools now t none logs =
    sym (map-id (marked_by (λ l. false)) (λ l. ground arith) logs)
sweep_tenant_marks tools now t (some years) logs =
    map-ext _ _ (archive_marks tools now years t.id) logs

outlived_marked :
    (tools : Tools) (now : ℕ) (o : Option ℕ) (t : String) (p : AuditLog → Bool) (l : AuditLog)
    → outlived tools now o t (marked_by p l) ≡ outlived tools now o t l
outlived_marked tools now none t p l = refl
outlived_marked tools now (some years) t p l = refl

outlived_any_marked :
    (tools : Tools) (now : ℕ) (years : String → Option ℕ) (ts : List Tenant) (p : AuditLog → Bool)
    (l : AuditLog)
    → outlived_any tools now years ts (marked_by p l) ≡ outlived_any tools now years ts l
outlived_any_marked tools now years [] p l = refl
outlived_any_marked tools now years (t ∷ ts) p l = simp (
  outlived_marked tools now (declared (years t.vertical)) t.id p l,
  outlived_any_marked tools now years ts p l,
)

marked_twice :
    (p q : AuditLog → Bool)
    → ((l : AuditLog) → q (marked_by p l) ≡ q l)
    → (l : AuditLog) → marked_by q (marked_by p l) ≡ marked_by (λ x. p x || q x) l
marked_twice p q h l = ground (arith, h l)

-- A sweep archives the rows of each tenant that are older than the period its pack declares, and does
-- nothing else: it leaves the rows of a tenant whose pack declares none, never takes a mark away, and
-- neither adds a row nor drops one.
pub sweep_lem :
    (tools : Tools) (now : ℕ) (years : String → Option ℕ) (ts : List Tenant) (logs : List AuditLog)
    → (sweep tools now years ts logs).1 ≡ map (marked_by (outlived_any tools now years ts)) logs
unfolding sweep
sweep_lem tools now years [] logs = sym (map-id (marked_by (λ l. false)) (λ l. ground arith) logs)
sweep_lem tools now years (t ∷ ts) logs =
    let p : AuditLog → Bool = outlived tools now (declared (years t.vertical)) t.id in
    let q : AuditLog → Bool = outlived_any tools now years ts in
    let first : (sweep_tenant tools now t (declared (years t.vertical)) logs).1
        ≡ map (marked_by p) logs =
      sweep_tenant_marks tools now t (declared (years t.vertical)) logs in
    sweep_lem tools now years ts _
    ∙ ap (map (marked_by q)) first
    ∙ map-map (marked_by q) (marked_by p) logs
    ∙ map-ext _ _ (marked_twice p q (outlived_any_marked tools now years ts p)) logs

module _ (p : AuditLog → Bool) where
  abbrev mark_ : AuditLog → AuditLog
  mark_ l = marked_by p l

  rows_marked :
      (t : String) (ls : List AuditLog)
      → filter (is_of_tenant t) (map mark_ ls) ≡ map mark_ (filter (is_of_tenant t) ls)
  rows_marked t [] = refl
  rows_marked t (l ∷ ls) = elim (Bool-cases (is_of_tenant t l)) [
    | inl e ↦ rw e (ap (λ r. mark_ l ∷ r) (rows_marked t ls))
    | inr e ↦ rw e (rows_marked t ls)
  ]

  insert_marked :
      (l : AuditLog) (ls : List AuditLog)
      → insert_log (mark_ l) (map mark_ ls) ≡ map mark_ (insert_log l ls)
  insert_marked l [] = refl
  insert_marked l (m ∷ ms) = elim (Bool-cases (leb l.timestamp m.timestamp)) [
    | inl e ↦ rw (insert_log, e) refl
    | inr e ↦ rw (insert_log, e) (ap (λ r. mark_ m ∷ r) (insert_marked l ms))
  ]

  chronological_marked :
      (ls : List AuditLog) → chronological (map mark_ ls) ≡ map mark_ (chronological ls)
  chronological_marked [] = refl
  chronological_marked (l ∷ ls) =
      ap (insert_log (mark_ l)) (chronological_marked ls) ∙ insert_marked l (chronological ls)

  walk_marked :
      (tools : Tools) (total : ℕ) (running : String) (valid : ℕ) (ls : List AuditLog)
      → walk_chain tools total running valid (map mark_ ls)
        ≡ walk_chain tools total running valid ls
  walk_marked tools total running valid [] = refl
  walk_marked tools total running valid (l ∷ ls) = elim (Bool-cases (continues tools running l)) [
    | inl e ↦ rw e (walk_marked tools total (get_or l.chain_hash running) (suc valid) ls)
    | inr e ↦ rw e refl
  ]

  length_marked : (ls : List AuditLog) → length (map mark_ ls) ≡ length ls
  length_marked [] = refl
  length_marked (l ∷ ls) = ap suc (length_marked ls)

  verify_marked :
      (tools : Tools) (t : String) (logs : List AuditLog)
      → verify_chain tools t (map mark_ logs) ≡ verify_chain tools t logs
  unfolding verify_chain
  verify_marked tools t logs =
      let same : chain_of t (map mark_ logs) ≡ map mark_ (chain_of t logs) =
        ap chronological (rows_marked t logs)
        ∙ chronological_marked (filter (is_of_tenant t) logs) in
      rw (same, length_marked (chain_of t logs))
        (walk_marked tools (length (chain_of t logs)) (genesis_hash tools t) 0 (chain_of t logs))

-- The retention sweep does not touch the chain: for every tenant, `verifyChain` reports after a sweep
-- what it reports before it.
pub verify_chain-sweep :
    (tools : Tools) (now : ℕ) (years : String → Option ℕ) (ts : List Tenant) (logs : List AuditLog)
    (t : String)
    → verify_chain tools t (sweep tools now years ts logs).1 ≡ verify_chain tools t logs
verify_chain-sweep tools now years ts logs t =
    ap (verify_chain tools t) (sweep_lem tools now years ts logs)
    ∙ verify_marked (outlived_any tools now years ts) tools t logs
