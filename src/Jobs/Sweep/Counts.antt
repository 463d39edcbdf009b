-- ===== src/Jobs/Sweep/Counts.antt =====
-- What `runTenantBoundSweep` of src/core/tenancy/tenant-bound-sweep.ts counts.
use meru_core.Base.{
  ℕ, suc, ◌+◌, ◌≤◌, ◌<◌, String, Option, none, some, List, [], ◌∷◌, ◌≡◌, ◌≢◌, ◌↔◌, refl, ap, subst,
  inl, inr, arith, length, length-append, includes, Bool-cases, map,
}
use meru_core.Jobs.Sweep.{
  SweepScope, Tally, no_tally, add, set_of, count_one, sweep_from, run_tenant_bound_sweep,
}
use meru_core.Jobs.Sweep.Sets.{HasNoRepeat, IsWithin, within_length, includes-add, add-HasNoRepeat}

-- What the loop has counted after `n` items, of tenants among `seen`.
record IsTally {E : Type 0} (t : Tally E) (n : ℕ) (seen : List String) : Type 0 where
  all_counted : t.processed + length t.failed ≡ n
  each_once : HasNoRepeat t.tenants
  within : IsWithin t.tenants seen
  none_done : (length t.tenants ≡ 0) ↔ (t.processed ≡ 0)

-- What a sweep of `n` items reports.
pub record Accounts {E : Type 0} (n : ℕ) (r : SweepScope E) : Type 0 where
  pub every : r.items_processed + length r.failures ≡ r.items_found
  pub found : r.items_found ≡ n
  pub no_more : r.scanned ≤ r.eligible
  pub none_scanned : (r.scanned ≡ 0) ↔ (length r.failures ≡ n)
  pub any_eligible : (0 < r.eligible) ↔ (0 < n)

add_nonempty : (xs : List String) (x : String) → length (add xs x) ≢ 0
add_nonempty [] x e = ground arith
add_nonempty (y ∷ ys) x e = elim (Bool-cases (includes (y ∷ ys) x)) [
  | inl h ↦ ground (arith, e, h)
  | inr h ↦ ground (arith, e, h)
]

length-add : (seen : List String) (x : String) → length seen ≤ length (add seen x)
length-add seen x = elim (Bool-cases (includes seen x)) [
  | inl e ↦ rw e (omega arith)
  | inr e ↦ rw e (omega (arith, length-append seen (x ∷ [])))
]

set_of_grows : (xs seen : List String) → length seen ≤ length (set_of seen xs)
set_of_grows [] seen = omega arith
set_of_grows (x ∷ xs) seen = omega (arith, set_of_grows xs (add seen x), length-add seen x)

set_of_nonempty : (xs : List String) (n : ℕ) → length xs ≡ n → (0 < length (set_of [] xs)) ↔ (0 < n)
set_of_nonempty [] n e = (λ h. omega (arith, h, e), λ h. omega (arith, h, e))
set_of_nonempty (x ∷ xs) n e =
    let grown : length (x ∷ []) ≤ length (set_of [] (x ∷ xs)) = set_of_grows xs (x ∷ []) in
    (λ h. omega (arith, e), λ h. omega (arith, grown))

module _ {S A E : Type 0} (tenant_of id_of : A → String) (fn : A → S → S × Option E) where
  count_one-IsTally :
      (item : A) (thrown : Option E) (t : Tally E) (n : ℕ) (seen : List String)
      → IsTally t n seen
      → IsTally (count_one tenant_of id_of fn item thrown t) (suc n) (add seen (tenant_of item))
  count_one-IsTally item none t n seen h = record {
    all_counted = omega (arith, h.all_counted);
    each_once = add-HasNoRepeat t.tenants (tenant_of item) h.each_once;
    within = λ z e.
        let w = (includes-add t.tenants (tenant_of item) z).0 e in
        (includes-add seen (tenant_of item) z).1
          (elim w [ inl k ↦ inl (h.within z k) | inr same ↦ inr same ]);
    none_done =
        (λ e. absurd (add_nonempty t.tenants (tenant_of item) e), λ e. absurd (omega (arith, e)));
  }
  count_one-IsTally item (some x) t n seen h = record {
    all_counted = omega (
      arith,
      h.all_counted,
      length-append t.failed
          ((record { tenant_id = tenant_of item; item_id = id_of item; thrown = x }) ∷ []),
    );
    each_once = h.each_once;
    within = λ z e. (includes-add seen (tenant_of item) z).1 (inl (h.within z e));
    none_done = h.none_done;
  }

  sweep_from-IsTally :
      (items : List A) (t : Tally E) (s : S) (n : ℕ) (seen : List String)
      → IsTally t n seen
      → IsTally
          (sweep_from tenant_of id_of fn t items s).0
          (n + length items)
          (set_of seen (map tenant_of items))
  sweep_from-IsTally [] t s n seen h =
      let same : n ≡ n + length {A = A} [] = omega arith in subst (λ m. IsTally t m seen) same h
  sweep_from-IsTally (item ∷ items) t s n seen h =
      let ih =
        sweep_from-IsTally items _ (fn item s).0 (suc n) (add seen (tenant_of item))
          (count_one-IsTally item (fn item s).1 t n seen h) in
      let same : suc n + length items ≡ n + length (item ∷ items) = omega arith in
      subst
        (λ m.
          IsTally {E = E} (sweep_from tenant_of id_of fn t (item ∷ items) s).0 m
            (set_of (add seen (tenant_of item)) (map tenant_of items)))
        same ih

  length-map : (items : List A) → length (map tenant_of items) ≡ length items
  length-map [] = refl
  length-map (item ∷ items) = ap suc (length-map items)

  -- A sweep counts every item once, as processed or as a failure; it reports no more tenants as
  -- scanned than as eligible; and it reports none as scanned exactly when every item has failed, and some
  -- as eligible exactly when there is an item.
  pub run_tenant_bound_sweep_counts :
      (items : List A) (s : S)
      → Accounts (length items) (run_tenant_bound_sweep tenant_of id_of fn items s).0
  unfolding run_tenant_bound_sweep
  run_tenant_bound_sweep_counts items s =
      let h = sweep_from-IsTally items no_tally s 0 [] (record {
        all_counted = refl;
        each_once = tt;
        within = λ z e. e;
        none_done = (λ _. refl, λ _. refl);
      }) in
      record {
        every = omega (arith, h.all_counted);
        found = refl;
        no_more = within_length _ _ h.each_once h.within;
        none_scanned = (
          λ e. omega (arith, h.all_counted, h.none_done.0 e),
          λ e. h.none_done.1 (omega (arith, h.all_counted, e)),
        );
        any_eligible = set_of_nonempty (map tenant_of items) (length items) (length-map items);
      }
