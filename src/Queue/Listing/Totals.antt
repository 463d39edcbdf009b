-- ===== src/Queue/Listing/Totals.antt =====
-- `getMetrics` of src/queue/queue.service.ts: the figures of the types against the totals.
use meru_core.Base.{
  ℕ, ◌+◌, ◌≤◌, String, Option, List, [], ◌∷◌, ◌≡◌, refl, sym, ap, ◌∙◌, Bool, true, false, ◌&&◌,
  arith, eq_iff, filter, length, map, includes, Bool-cases, inl, inr, All, All-imp,
}
use meru_core.Queue.Types.{QueueJob, JobStatus, Queue, type_name}
use meru_core.Queue.Jobs.{of_tenant}
use meru_core.Queue.Listing.{count, has_status, add_type, types_in, of_type, get_metrics}

-- The sum of a figure over the rows.
abbrev pub sum_of : {A : Type 0} → (A → ℕ) → List A → ℕ
sum_of f [] = 0
sum_of f (x ∷ xs) = f x + sum_of f xs

abbrev IsOnce : List String → Type 0
IsOnce [] = Unit
IsOnce (t ∷ ts) = (includes ts t ≡ false) × IsOnce ts

module _ (p : QueueJob → Bool) where
  abbrev of_types : List String → QueueJob → Bool
  of_types ts j = p j && includes ts (type_name j.type)

  count_cons :
      (t : String) (ts : List String) (js : List QueueJob)
      → includes ts t ≡ false
      → count p (filter (of_type t) js) + count (of_types ts) js ≡ count (of_types (t ∷ ts)) js
  count_cons t ts [] h = omega arith
  count_cons t ts (j ∷ js) h =
      ground (arith, count_cons t ts js h, eq_iff (type_name j.type) t, eq_iff t (type_name j.type))

  count_none : (js : List QueueJob) → count (of_types []) js ≡ 0
  count_none [] = refl
  count_none (j ∷ js) = ground (arith, count_none js)

  sum_types :
      (ts : List String) (js : List QueueJob)
      → IsOnce ts
      → sum_of (λ t. count p (filter (of_type t) js)) ts ≡ count (of_types ts) js
  sum_types [] js h = sym (count_none js)
  sum_types (t ∷ ts) js h = omega (arith, sum_types ts js h.1, count_cons t ts js h.0)

  count_within :
      (ts : List String) (js : List QueueJob)
      → All (λ j. includes ts (type_name j.type) ≡ true) js
      → count (of_types ts) js ≡ count p js
  count_within ts [] h = refl
  count_within ts (j ∷ js) h = ground (arith, count_within ts js h.1, h.0)

types_in-IsOnce : (js : List QueueJob) → IsOnce (types_in js)
types_in-IsOnce [] = tt
types_in-IsOnce (j ∷ js) = elim (Bool-cases (includes (types_in js) (type_name j.type))) [
  | inl e ↦ rw e (types_in-IsOnce js)
  | inr e ↦ rw e (e, types_in-IsOnce js)
]

includes-add_type :
    (t u : String) (ts : List String) → includes ts u ≡ true → includes (add_type t ts) u ≡ true
includes-add_type t u ts h = ground (arith, h)

types_in-includes :
    (js : List QueueJob) → All (λ j. includes (types_in js) (type_name j.type) ≡ true) js
types_in-includes [] = tt
types_in-includes (j ∷ js) = (
  ground (arith, eq_iff (type_name j.type) (type_name j.type)),
  All-imp (λ k h. includes-add_type (type_name j.type) (type_name k.type) (types_in js) h) js
      (types_in-includes js),
)

sum_of-map :
    {A B : Type 0} (f : B → ℕ) (g : A → B) (xs : List A)
    → sum_of f (map g xs) ≡ sum_of (λ x. f (g x)) xs
sum_of-map f g [] = refl
sum_of-map f g (x ∷ xs) = ap (λ n. f (g x) + n) (sum_of-map f g xs)

all_types_counted :
    (p : QueueJob → Bool) (js : List QueueJob)
    → sum_of (λ t. count p (filter (of_type t) js)) (types_in js) ≡ count p js
all_types_counted p js =
    sum_types p (types_in js) js (types_in-IsOnce js)
    ∙ count_within p (types_in js) js (types_in-includes js)

statuses_within :
    (js : List QueueJob)
    → count (has_status JobStatus.processing) js
        + count (has_status JobStatus.pending) js
        + count (has_status JobStatus.completed) js
        + count (has_status JobStatus.failed) js
      ≤ length js
statuses_within [] = omega arith
statuses_within (j ∷ js) = ground (arith, statuses_within js)

-- The metrics of the queue agree with each other: the active, completed and failed jobs of the types
-- sum to the totals, and the active, waiting, completed and failed jobs together are no more than
-- the jobs of the tenant.
pub get_metrics_agree :
    (now : ℕ) (tenant : Option String) (q : Queue)
    → (sum_of (λ s. s.active) (get_metrics now tenant q).by_type
        ≡ (get_metrics now tenant q).active)
      × (sum_of (λ s. s.completed) (get_metrics now tenant q).by_type
          ≡ (get_metrics now tenant q).completed)
      × (sum_of (λ s. s.failed) (get_metrics now tenant q).by_type
          ≡ (get_metrics now tenant q).failed)
      × ((get_metrics now tenant q).active
            + (get_metrics now tenant q).waiting
            + (get_metrics now tenant q).completed
            + (get_metrics now tenant q).failed
          ≤ length (filter (of_tenant tenant) q.jobs))
unfolding get_metrics
get_metrics_agree now tenant q =
    let js : List QueueJob = filter (of_tenant tenant) q.jobs in
    (
      sum_of-map (λ s. s.active) _ (types_in js)
          ∙ all_types_counted (has_status JobStatus.processing) js,
      sum_of-map (λ s. s.completed) _ (types_in js)
          ∙ all_types_counted (has_status JobStatus.completed) js,
      sum_of-map (λ s. s.failed) _ (types_in js)
          ∙ all_types_counted (has_status JobStatus.failed) js,
      statuses_within js,
    )
