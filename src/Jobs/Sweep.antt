-- ===== src/Jobs/Sweep.antt =====
-- `runTenantBoundSweep` of src/core/tenancy/tenant-bound-sweep.ts. A failure keeps the exception
-- itself, of which `summariseFailure` prints the class and the code.
pub mod Sets
pub mod Counts
use meru_core.Base.{
  ℕ, suc, String, Option, none, some, List, [], ◌∷◌, ◌++◌, if◌then◌else◌, includes, length, map,
}

pub record SweepFailure (E : Type 0) : Type 0 where
  pub tenant_id : String
  pub item_id : String
  pub thrown : E

pub record SweepScope (E : Type 0) : Type 0 where
  pub eligible : ℕ
  pub scanned : ℕ
  pub items_found : ℕ
  pub items_processed : ℕ
  pub failures : List (SweepFailure E)

-- `set.add(x)`, a set of texts being a list without repetition
abbrev pub add : List String → String → List String
add seen x = if includes seen x then seen else seen ++ x ∷ []

-- `new Set(xs)`
abbrev pub set_of : List String → List String → List String
set_of seen [] = seen
set_of seen (x ∷ xs) = set_of (add seen x) xs

-- What the loop has counted so far.
pub record Tally (E : Type 0) : Type 0 where
  pub tenants : List String
  pub processed : ℕ
  pub failed : List (SweepFailure E)

abbrev pub no_tally : {E : Type 0} → Tally E
no_tally = record { tenants = []; processed = 0; failed = [] }

module _ {S A E : Type 0} (tenant_of id_of : A → String) (fn : A → S → S × Option E) where
  -- One turn of the loop, from what `fn` left: the state, and the exception if it threw.
  abbrev pub count_one : A → Option E → Tally E → Tally E
  count_one item none t = record t {
    tenants = add t.tenants (tenant_of item);
    processed = suc t.processed;
  }
  count_one item (some e) t = record t {
    failed =
        t.failed ++ (record { tenant_id = tenant_of item; item_id = id_of item; thrown = e }) ∷ [];
  }

  abbrev pub sweep_from : Tally E → List A → S → Tally E × S
  sweep_from t [] s = (t, s)
  sweep_from t (item ∷ items) s =
      let (after, thrown) = fn item s in sweep_from (count_one item thrown t) items after

  abbrev pub scope_of_sweep : List A → Tally E → SweepScope E
  scope_of_sweep items t = record {
    eligible = length (set_of [] (map tenant_of items));
    scanned = length t.tenants;
    items_found = length items;
    items_processed = t.processed;
    failures = t.failed;
  }

  unfoldable pub run_tenant_bound_sweep : List A → S → SweepScope E × S
  run_tenant_bound_sweep items s =
      let (t, after) = sweep_from no_tally items s in (scope_of_sweep items t, after)
