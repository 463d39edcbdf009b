-- ===== src/Audit/Chain.antt =====
-- The chain of hashes of src/audit/audit.service.ts: what `logEvent` does to it, and what `verifyChain`
-- finds.
use mathlib.Core.Bool.{false≢true}
use meru_core.Base.{
  ℕ, suc, ◌≤◌, String, Option, none, some, List, [], ◌∷◌, ◌++◌, ◌≡◌, ◌↔◌, refl, sym, ap, ◌∙◌, subst,
  Bool, true, false, ◌==◌, arith, eq_iff, filter, All, All-append, All-imp, Bool-cases, inl, inr,
  get_or, leb,
}
use meru_core.Audit.Types.{AuditLog, LogAuditEvent, Tools}
use meru_core.Audit.Write.{
  genesis_hash, is_of_tenant, insert_log, chronological, chain_of, last_hash, get_last_chain_hash,
  new_log, log_event,
}
use meru_core.Audit.Read.{is_hash, expected_hash, continues, walk_chain, verify_chain}

-- Each row names the hash of the one before it, and has the hash that its own columns come to.
abbrev pub IsChain : Tools → String → List AuditLog → Type 0
IsChain tools running [] = Unit
IsChain tools running (l ∷ ls) =
    (l.chain_hash ≡ some (expected_hash tools running l))
    × (l.previous_chain_hash ≡ some running)
    × IsChain tools (expected_hash tools running l) ls

-- The chain of a tenant, from its genesis.
abbrev pub IsChained : Tools → String → List AuditLog → Type 0
IsChained tools tenant_id logs =
    IsChain tools (genesis_hash tools tenant_id) (chain_of tenant_id logs)

is_hash_iff : (o : Option String) (h : String) → (is_hash o h ≡ true) ↔ (o ≡ some h)
is_hash_iff none h = grind arith
is_hash_iff (some g) h = grind (arith, eq_iff g h)

-- Rows that are no later than a new one: it stands last.
abbrev NoneLater : ℕ → List AuditLog → Type 0
NoneLater now ls = All (λ l. l.timestamp ≤ now) ls

insert_log-last :
    (l : AuditLog) (ls : List AuditLog) (x : AuditLog)
    → l.timestamp ≤ x.timestamp
    → insert_log l (ls ++ x ∷ []) ≡ insert_log l ls ++ x ∷ []
insert_log-last l [] x h = ground arith
insert_log-last l (m ∷ ms) x h = elim (Bool-cases (leb l.timestamp m.timestamp)) [
  | inl e ↦ rw (insert_log, e) refl
  | inr e ↦ rw (insert_log, e) (ap (λ r. m ∷ r) (insert_log-last l ms x h))
]

chronological-last :
    (ls : List AuditLog) (x : AuditLog)
    → NoneLater x.timestamp ls
    → chronological (ls ++ x ∷ []) ≡ chronological ls ++ x ∷ []
chronological-last [] x h = refl
chronological-last (l ∷ ls) x h =
    ap (insert_log l) (chronological-last ls x h.1) ∙ insert_log-last l (chronological ls) x h.0

filter-append :
    (p : AuditLog → Bool) (xs ys : List AuditLog) → filter p (xs ++ ys) ≡ filter p xs ++ filter p ys
filter-append p [] ys = refl
filter-append p (x ∷ xs) ys = elim (Bool-cases (p x)) [
  | inl e ↦ rw e (ap (λ r. x ∷ r) (filter-append p xs ys))
  | inr e ↦ rw e (filter-append p xs ys)
]

-- The last row of a chain has a hash, so the start counts for nothing.
last_hash_start :
    (tools : Tools) (running s t : String) (m : AuditLog) (ls : List AuditLog)
    → IsChain tools running (m ∷ ls)
    → last_hash s (m ∷ ls) ≡ last_hash t (m ∷ ls)
last_hash_start tools running s t m [] h = ap (λ o. get_or o s) h.0 ∙ sym (ap (λ o. get_or o t) h.0)
last_hash_start tools running s t m (l ∷ ls) h =
    let (_, _, rest) = h in last_hash_start tools (expected_hash tools running m) s t l ls rest

IsChain-append :
    (tools : Tools) (running : String) (ls : List AuditLog) (x : AuditLog)
    → IsChain tools running ls
    → x.chain_hash ≡ some (expected_hash tools (last_hash running ls) x)
    → x.previous_chain_hash ≡ some (last_hash running ls)
    → IsChain tools running (ls ++ x ∷ [])
IsChain-append tools running [] x h e f = (e, f, tt)
IsChain-append tools running (l ∷ []) x h e f =
    let (a, b, _) = h in
    let same : get_or l.chain_hash running ≡ expected_hash tools running l =
      ap (λ o. get_or o running) a in
    (a, b, (rw same at e, rw same at f, tt))
IsChain-append tools running (l ∷ m ∷ ls) x h e f =
    let (a, b, rest) = h in
    let same =
      last_hash_start tools (expected_hash tools running l) running (expected_hash tools running l)
        m ls rest in
    (
      a,
      b,
      IsChain-append tools (expected_hash tools running l) (m ∷ ls) x rest (rw same at e)
          (rw same at f),
    )

-- A valid continuation is one in which every link is what it has to be: the report says tampered
-- exactly when there is a link that is not.
walk_chain_iff :
    (tools : Tools) (total : ℕ) (running : String) (valid : ℕ) (ls : List AuditLog)
    → ((walk_chain tools total running valid ls).tampered ≡ false) ↔ IsChain tools running ls
walk_chain_iff tools total running valid [] = (λ _. tt, λ _. refl)
walk_chain_iff tools total running valid (l ∷ ls) =
    let first = is_hash_iff l.chain_hash (expected_hash tools running l) in
    let second = is_hash_iff l.previous_chain_hash running in
    elim (Bool-cases (continues tools running l)) [
      | inl e ↦
          let a : l.chain_hash ≡ some (expected_hash tools running l) =
            first.0 (ground (arith, e)) in
          let b : l.previous_chain_hash ≡ some running = second.0 (ground (arith, e)) in
          let same : get_or l.chain_hash running ≡ expected_hash tools running l =
            ap (λ o. get_or o running) a in
          let ih = walk_chain_iff tools total (expected_hash tools running l) (suc valid) ls in
          rw (e, same) (λ h. (a, b, ih.0 h), λ h. let (_, _, rest) = h in ih.1 rest)
      | inr e ↦ rw e (
        λ h. absurd (false≢true (sym h)),
        λ h. let (a, b, _) = h in absurd (ground (arith, e, first.1 a, second.1 b)),
      )
    ]

-- The report of a chain says tampered exactly when the chain of the tenant, in the order of its rows
-- from its genesis, has a row whose hash is not the one that its columns come to, or that does not
-- name the hash of the row before it.
pub verify_chain_iff :
    (tools : Tools) (tenant_id : String) (logs : List AuditLog)
    → ((verify_chain tools tenant_id logs).tampered ≡ false) ↔ IsChained tools tenant_id logs
unfolding verify_chain
verify_chain_iff tools tenant_id logs =
    walk_chain_iff tools _ (genesis_hash tools tenant_id) 0 (chain_of tenant_id logs)

NoneLater-filter :
    (p : AuditLog → Bool) (now : ℕ) (ls : List AuditLog)
    → All (λ l. p l ≡ true → l.timestamp ≤ now) ls
    → NoneLater now (filter p ls)
NoneLater-filter p now [] h = tt
NoneLater-filter p now (l ∷ ls) h = elim (Bool-cases (p l)) [
  | inl e ↦ rw e (h.0 e, NoneLater-filter p now ls h.1)
  | inr e ↦ rw e (NoneLater-filter p now ls h.1)
]

append_nil : (ls : List AuditLog) → ls ++ [] ≡ ls
append_nil [] = refl
append_nil (l ∷ ls) = ap (λ r. l ∷ r) (append_nil ls)

module _ (tools : Tools) (id : String) (now : ℕ) (e : LogAuditEvent) (logs : List AuditLog) where
  abbrev added : AuditLog
  added = new_log tools id now e logs

  abbrev before_hash : String
  before_hash = get_last_chain_hash tools e.tenant_id logs

  new_log-links :
      (added.chain_hash ≡ some (expected_hash tools before_hash added))
      × (added.previous_chain_hash ≡ some before_hash)
  unfolding new_log
  new_log-links = (refl, refl)

  new_log_place : (added.tenant_id ≡ e.tenant_id) × (added.timestamp ≡ now)
  unfolding new_log
  new_log_place = (refl, refl)

  own_rows :
      filter (is_of_tenant e.tenant_id) (logs ++ added ∷ [])
      ≡ filter (is_of_tenant e.tenant_id) logs ++ added ∷ []
  own_rows =
      let mine : is_of_tenant e.tenant_id added ≡ true =
        (eq_iff added.tenant_id e.tenant_id).1 (new_log_place.0) in
      filter-append (is_of_tenant e.tenant_id) logs (added ∷ []) ∙ rw mine refl

  other_rows :
      (t : String)
      → e.tenant_id == t ≡ false
      → filter (is_of_tenant t) (logs ++ added ∷ []) ≡ filter (is_of_tenant t) logs
  other_rows t h =
      let theirs : is_of_tenant t added ≡ false = rw new_log_place.0 h in
      filter-append (is_of_tenant t) logs (added ∷ [])
      ∙ rw theirs (append_nil (filter (is_of_tenant t) logs))

  own-IsChained :
      All (λ l. is_of_tenant e.tenant_id l ≡ true → l.timestamp ≤ now) logs
      → IsChained tools e.tenant_id logs
      → IsChained tools e.tenant_id (logs ++ added ∷ [])
  own-IsChained late h =
      let last : chain_of e.tenant_id (logs ++ added ∷ [])
          ≡ chain_of e.tenant_id logs ++ added ∷ [] =
        ap chronological own_rows
        ∙ chronological-last (filter (is_of_tenant e.tenant_id) logs) added
            (rw new_log_place.1 (NoneLater-filter (is_of_tenant e.tenant_id) now logs late)) in
      subst (IsChain tools (genesis_hash tools e.tenant_id)) (sym last) (
        IsChain-append tools (genesis_hash tools e.tenant_id) (chain_of e.tenant_id logs) added h
          new_log-links.0 new_log-links.1)

  -- Logging an event keeps every tenant's chain intact, its own and the others', when no row of its
  -- tenant is dated after it.
  pub log_event-IsChained :
      All (λ l. is_of_tenant e.tenant_id l ≡ true → l.timestamp ≤ now) logs
      → ((t : String) → IsChained tools t logs)
      → (t : String) → IsChained tools t (log_event tools id now e logs)
  unfolding log_event
  log_event-IsChained late h t = elim (Bool-cases (e.tenant_id == t)) [
    | inl m ↦
        subst (λ u. IsChained tools u (logs ++ added ∷ [])) ((eq_iff e.tenant_id t).0 m)
          (own-IsChained late (h e.tenant_id))
    | inr m ↦
        subst (λ rows. IsChain tools (genesis_hash tools t) (chronological rows))
          (sym (other_rows t m)) (h t)
  ]

-- Events logged one after the other, each with its id and its instant.
pub record Logged : Type 0 where
  pub id : String
  pub at : ℕ
  pub event : LogAuditEvent

-- The log after the events, the newest of them first.
abbrev pub log_all : Tools → List Logged → List AuditLog
log_all tools [] = []
log_all tools (x ∷ xs) = log_event tools x.id x.at x.event (log_all tools xs)

-- The clock does not go back.
abbrev pub IsForward : List Logged → Type 0
IsForward [] = Unit
IsForward (x ∷ xs) = All (λ y. y.at ≤ x.at) xs × IsForward xs

log_event_dated :
    (tools : Tools) (x : Logged) (now : ℕ) (logs : List AuditLog)
    → All (λ l. l.timestamp ≤ now) logs
    → x.at ≤ now
    → All (λ l. l.timestamp ≤ now) (log_event tools x.id x.at x.event logs)
unfolding log_event new_log
log_event_dated tools x now logs h l =
    All-append (λ l. l.timestamp ≤ now) logs (new_log tools x.id x.at x.event logs ∷ []) h (l, tt)

log_all_dated :
    (tools : Tools) (now : ℕ) (xs : List Logged)
    → All (λ y. y.at ≤ now) xs
    → All (λ l. l.timestamp ≤ now) (log_all tools xs)
log_all_dated tools now [] h = tt
log_all_dated tools now (x ∷ xs) h =
    log_event_dated tools x now (log_all tools xs) (log_all_dated tools now xs h.1) h.0

log_all-IsChained :
    (tools : Tools) (xs : List Logged)
    → IsForward xs
    → (t : String) → IsChained tools t (log_all tools xs)
log_all-IsChained tools [] h t = tt
log_all-IsChained tools (x ∷ xs) h t =
    log_event-IsChained tools x.id x.at x.event (log_all tools xs)
      (All-imp (λ l d _. d) (log_all tools xs) (log_all_dated tools x.at xs h.0))
      (log_all-IsChained tools xs h.1) t

-- Whatever events are logged, for whatever tenants and however they are mixed, the chain of every
-- tenant is verified as untampered, provided that the clock does not go back.
pub log_all_untampered :
    (tools : Tools) (xs : List Logged) (t : String)
    → IsForward xs
    → (verify_chain tools t (log_all tools xs)).tampered ≡ false
log_all_untampered tools xs t h =
    (verify_chain_iff tools t (log_all tools xs)).1 (log_all-IsChained tools xs h t)
