-- ===== src/Jobs/Dispatch/Tick.antt =====
-- `tick` of src/jobs/jobs.controller.ts: what it reports of the jobs of its scope.
use meru_core.Base.{
  ℕ, suc, ◌+◌, String, Option, some, List, [], ◌∷◌, ◌++◌, ◌≡◌, refl, sym, ap, subst, true, ◌⊎◌, inl,
  inr, arith, length, length-append, Bool-cases, Result, ok, err, In, In-append_left,
  In-append_right, In-map, map, All, pos, sub_ℕ, lt_ℤ,
}
use meru_core.Jobs.Catalogue.{
  JobName, queue_drain, scheduled_jobs, recurring_tasks, scheduled_notifications,
  notification_dispatch, sla_watchdog, alert_rules, messaging_sequences, scheduled_reports,
  daily_billing, regulatory_radar, audit_archive, watchlist_ingest, rescreening, digest_emails,
  name_of, job_of, Evidence, TickScope, tick_scope, tick_budget_ms,
}
use meru_core.Jobs.Runs.{JobRun}
use meru_core.Jobs.Dispatch.{
  Services, State, Ran, DispatchError, TickResult, no_result, run_job, run_named, ran, last_of,
  is_recent, dispatched, tick_turn, tick_loop, tick,
}

-- The job stands in one of the four lists.
abbrev pub IsReported : JobName → TickResult → Type 0
IsReported j t =
    In j (map (λ r. r.job) t.ran)
    ⊎ In j t.skipped
    ⊎ In j t.deferred
    ⊎ In j (map (λ p. p.0) t.failed)

-- How many entries the four lists have.
abbrev pub size : TickResult → ℕ
size t = length t.ran + length t.skipped + length t.deferred + length t.failed

pub job_of-name_of : (j : JobName) → job_of (name_of j) ≡ some j
job_of-name_of queue_drain = refl
job_of-name_of scheduled_jobs = refl
job_of-name_of recurring_tasks = refl
job_of-name_of scheduled_notifications = refl
job_of-name_of notification_dispatch = refl
job_of-name_of sla_watchdog = refl
job_of-name_of alert_rules = refl
job_of-name_of messaging_sequences = refl
job_of-name_of scheduled_reports = refl
job_of-name_of daily_billing = refl
job_of-name_of regulatory_radar = refl
job_of-name_of audit_archive = refl
job_of-name_of watchlist_ingest = refl
job_of-name_of rescreening = refl
job_of-name_of digest_emails = refl

-- A turn adds one entry, of its job, and keeps those that are there.
record IsTurn (j : JobName) (t t' : TickResult) : Type 0 where
  reported : IsReported j t'
  keeps : (k : JobName) → IsReported k t → IsReported k t'
  one_more : size t' ≡ suc (size t)

module _ {A : Type 0} where
  In-snoc : (xs : List A) (x : A) → In x (xs ++ x ∷ [])
  In-snoc xs x = In-append_right xs (x ∷ []) x (inl refl)

map-snoc :
    {A B : Type 0} (f : A → B) (xs : List A) (x : A) → map f (xs ++ x ∷ []) ≡ map f xs ++ f x ∷ []
map-snoc f [] x = refl
map-snoc f (y ∷ ys) x = ap (λ zs. f y ∷ zs) (map-snoc f ys x)

skipped-IsTurn :
    (j : JobName) (t : TickResult) → IsTurn j t (record t { skipped = t.skipped ++ j ∷ [] })
skipped-IsTurn j t = record {
  reported = inr (inl (In-snoc t.skipped j));
  keeps = λ k w. elim w [
    | inl m ↦ inl m
    | inr (inl m) ↦ inr (inl (In-append_left t.skipped (j ∷ []) k m))
    | inr (inr m) ↦ inr (inr m)
  ];
  one_more = omega (arith, length-append t.skipped (j ∷ []));
}

deferred-IsTurn :
    (j : JobName) (t : TickResult) → IsTurn j t (record t { deferred = t.deferred ++ j ∷ [] })
deferred-IsTurn j t = record {
  reported = inr (inr (inl (In-snoc t.deferred j)));
  keeps = λ k w. elim w [
    | inl m ↦ inl m
    | inr (inl m) ↦ inr (inl m)
    | inr (inr (inl m)) ↦ inr (inr (inl (In-append_left t.deferred (j ∷ []) k m)))
    | inr (inr (inr m)) ↦ inr (inr (inr m))
  ];
  one_more = omega (arith, length-append t.deferred (j ∷ []));
}

ran-IsTurn :
    (j : JobName) (t : TickResult) (r : Ran)
    → r.job ≡ j
    → IsTurn j t (record t { ran = t.ran ++ r ∷ [] })
ran-IsTurn j t r e = record {
  reported = inl (
      subst (λ x. In x (map (λ y. y.job) (t.ran ++ r ∷ []))) e
        (In-map (λ y. y.job) (t.ran ++ r ∷ []) r (In-snoc t.ran r)));
  keeps = λ k w. elim w [
    | inl m ↦ inl (
        subst (λ ys. In k ys) (sym (map-snoc (λ y. y.job) t.ran r))
          (In-append_left (map (λ y. y.job) t.ran) (r.job ∷ []) k m))
    | inr m ↦ inr m
  ];
  one_more = omega (arith, length-append t.ran (r ∷ []));
}

failed-IsTurn :
    (j : JobName) (t : TickResult) (e : DispatchError)
    → IsTurn j t (record t { failed = t.failed ++ (j, e) ∷ [] })
failed-IsTurn j t e = record {
  reported =
      inr
        (inr (inr (In-map (λ p. p.0) (t.failed ++ (j, e) ∷ []) (j, e) (In-snoc t.failed (j, e)))));
  keeps = λ k w. elim w [
    | inl m ↦ inl m
    | inr (inl m) ↦ inr (inl m)
    | inr (inr (inl m)) ↦ inr (inr (inl m))
    | inr (inr (inr m)) ↦ inr (
        inr (
          inr (
            subst (λ ys. In k ys) (sym (map-snoc (λ p. p.0) t.failed (j, e)))
              (In-append_left (map (λ p. p.0) t.failed) (j ∷ []) k m))))
  ];
  one_more = omega (arith, length-append t.failed ((j, e) ∷ []));
}

module _ {W : Type 0} (services : Services W) where
  ran_job :
      (j : JobName) (r : W × Result String (Option Evidence)) (start : ℕ) (s : State W) (x : Ran)
      → (ran services j r start s).1 ≡ ok x
      → x.job ≡ j
  ran_job j (after, ok scope) start s x e = cc e
  ran_job j (after, err message) start s x e = cc e

  run_named_job :
      (j : JobName) (s : State W) (x : Ran)
      → (run_named services (name_of j) s).1 ≡ ok x
      → x.job ≡ j
  unfolding run_named run_job
  run_named_job j s x e =
      ran_job j (services.handle j s.world) (services.clock s.world) s x
        (rw (job_of-name_of j) at e)

  dispatched-IsTurn :
      (j : JobName) (r : State W × Result DispatchError Ran) (t : TickResult)
      → ((x : Ran) → r.1 ≡ ok x → x.job ≡ j)
      → IsTurn j t (dispatched services j r t).1
  dispatched-IsTurn j (s, ok x) t h = ran-IsTurn j t x (h x refl)
  dispatched-IsTurn j (s, err e) t h = failed-IsTurn j t e

  tick_turn-IsTurn :
      (start : ℕ) (persisted : List JobRun) (j : JobName) (s : State W) (t : TickResult)
      → IsTurn j t (tick_turn services start persisted j s t).1
  tick_turn-IsTurn start persisted j s t =
      elim (Bool-cases (is_recent (services.clock s.world) j (last_of j persisted s.marks))) [
        | inl e ↦ rw (tick_turn, e) (skipped-IsTurn j t)
        | inr e ↦
            elim (Bool-cases (lt_ℤ (pos tick_budget_ms) (sub_ℕ (services.clock s.world) start))) [
              | inl f ↦ rw (tick_turn, e, f) (deferred-IsTurn j t)
              | inr f ↦
                  rw (tick_turn, e, f)
                    (dispatched-IsTurn j (run_named services (name_of j) s) t (run_named_job j s))
            ]
      ]

  loop_lem :
      (start : ℕ) (persisted : List JobRun) (js : List JobName) (s : State W) (t : TickResult)
      → let r = (tick_loop services start persisted js s t).1 in
        All (λ j. IsReported j r) js
        × ((k : JobName) → IsReported k t → IsReported k r)
        × (size r ≡ size t + length js)
  loop_lem start persisted [] s t = (tt, λ k m. m, omega arith)
  loop_lem start persisted (j ∷ js) s t =
      let h = tick_turn-IsTurn start persisted j s t in
      let (s', t') = tick_turn services start persisted j s t in
      let (each, keeps, total) = loop_lem start persisted js s' t' in
      ((keeps j h.reported, each), λ k m. keeps k (h.keeps k m), omega (arith, total, h.one_more))

  -- A tick that can read the table of the runs returns, whatever its jobs throw, and reports each job
  -- of its scope once: as run, skipped, deferred or failed, and no other.
  pub tick_reports :
      (scope : TickScope) (s : State W)
      → services.can_read s.world ≡ true
      → (t : TickResult) × ((tick services scope s).1 ≡ ok t)
        × All (λ j. IsReported j t) (tick_scope scope)
        × (size t ≡ length (tick_scope scope))
  unfolding tick
  tick_reports scope s h =
      let (s', t) =
        tick_loop services (services.clock s.world) s.runs (tick_scope scope) s no_result in
      let (each, _, total) =
        loop_lem (services.clock s.world) s.runs (tick_scope scope) s no_result in
      (t, rw h refl, each, omega (arith, total))
