-- ===== src/Queue/Rows.antt =====
-- The table of jobs of src/queue/queue.service.ts: what `put_job` and `find_job` do to its rows and ids.
use meru_core.Base.{
  String, List, [], ◌∷◌, ◌++◌, ◌≡◌, ◌≢◌, refl, sym, ap, ◌∙◌, ◌==◌, ◌⊎◌, inl, inr, arith, eq_iff,
  map, filter, In, In-map, All, Bool-cases, In_of_All, Bool,
}
use meru_core.Queue.Types.{QueueJob}
use meru_core.Queue.Jobs.{put_job}

abbrev pub ids : List QueueJob → List String
ids js = map (λ j. j.id) js

abbrev pub IsDistinct : List String → Type 0
IsDistinct [] = Unit
IsDistinct (x ∷ xs) = All (λ y. x ≢ y) xs × IsDistinct xs

pub ids-put_job : (job : QueueJob) (js : List QueueJob) → ids (put_job job js) ≡ ids js
ids-put_job job [] = refl
ids-put_job job (j ∷ js) = ground (arith, eq_iff j.id job.id, ids-put_job job js)

pub In-put_job_cases :
    (job : QueueJob) (js : List QueueJob) (k : QueueJob)
    → In k (put_job job js)
    → (k ≡ job) ⊎ (In k js × (k.id ≢ job.id))
In-put_job_cases job [] k m = absurd m
In-put_job_cases job (j ∷ js) k m = ground (arith, eq_iff j.id job.id, In-put_job_cases job js k)

pub In-put_job_other :
    (job : QueueJob) (js : List QueueJob) (k : QueueJob)
    → In k js
    → k.id ≢ job.id
    → In k (put_job job js)
In-put_job_other job [] k m h = absurd m
In-put_job_other job (j ∷ js) k m h = ground (arith, eq_iff j.id job.id, In-put_job_other job js k)

pub In-put_job_self :
    (job : QueueJob) (js : List QueueJob) → In job.id (ids js) → In job (put_job job js)
In-put_job_self job [] m = absurd m
In-put_job_self job (j ∷ js) m = ground (arith, eq_iff j.id job.id, In-put_job_self job js)

-- Two rows of one id are one row.
pub IsDistinct-same :
    (js : List QueueJob)
    → IsDistinct (ids js)
    → (a b : QueueJob) → In a js
    → In b js
    → a.id ≡ b.id
    → a ≡ b
IsDistinct-same [] d a b m n e = absurd m
IsDistinct-same (j ∷ js) d a b (inl p) (inl q) e = p ∙ sym q
IsDistinct-same (j ∷ js) d a b (inl p) (inr n) e = absurd (
    In_of_All (λ y. j.id ≢ y) (ids js) d.0 b.id (In-map (λ k. k.id) js b n)
      (ap (λ (k : QueueJob). k.id) (sym p) ∙ e))
IsDistinct-same (j ∷ js) d a b (inr m) (inl q) e = absurd (
    In_of_All (λ y. j.id ≢ y) (ids js) d.0 a.id (In-map (λ k. k.id) js a m)
      (ap (λ (k : QueueJob). k.id) (sym q) ∙ sym e))
IsDistinct-same (j ∷ js) d a b (inr m) (inr n) e = IsDistinct-same js d.1 a b m n e

pub All-put_job {ℓ} :
    (P : QueueJob → Type ℓ) (job : QueueJob) (js : List QueueJob)
    → P job
    → All P js
    → All P (put_job job js)
All-put_job P job [] p h = tt
All-put_job P job (j ∷ js) p h = elim (Bool-cases (j.id == job.id)) [
  | inl e ↦ rw e (p, All-put_job P job js p h.1)
  | inr e ↦ rw e (h.0, All-put_job P job js p h.1)
]

pub All-snoc {ℓ} :
    {A : Type 0} (P : A → Type ℓ) (xs : List A) {x : A} → All P xs → P x → All P (xs ++ x ∷ [])
All-snoc P [] h p = (p, tt)
All-snoc P (y ∷ ys) h p = (h.0, All-snoc P ys h.1 p)

pub All-filter {ℓ} :
    {A : Type 0} (P : A → Type ℓ) (p : A → Bool) (xs : List A) → All P xs → All P (filter p xs)
All-filter P p [] h = tt
All-filter P p (x ∷ xs) h = elim (Bool-cases (p x)) [
  | inl e ↦ rw e (h.0, All-filter P p xs h.1)
  | inr e ↦ rw e (All-filter P p xs h.1)
]

-- What holds of every id still holds when rows are left out.
pub All-ids-filter {ℓ} :
    (P : String → Type ℓ) (p : QueueJob → Bool) (js : List QueueJob)
    → All P (ids js)
    → All P (ids (filter p js))
All-ids-filter P p [] h = tt
All-ids-filter P p (j ∷ js) h = elim (Bool-cases (p j)) [
  | inl e ↦ rw e (h.0, All-ids-filter P p js h.1)
  | inr e ↦ rw e (All-ids-filter P p js h.1)
]

pub IsDistinct-filter :
    (p : QueueJob → Bool) (js : List QueueJob)
    → IsDistinct (ids js)
    → IsDistinct (ids (filter p js))
IsDistinct-filter p [] d = tt
IsDistinct-filter p (j ∷ js) d = elim (Bool-cases (p j)) [
  | inl e ↦ rw e (All-ids-filter (λ y. j.id ≢ y) p js d.0, IsDistinct-filter p js d.1)
  | inr e ↦ rw e (IsDistinct-filter p js d.1)
]

pub IsDistinct-append :
    (xs : List String) (x : String)
    → IsDistinct xs
    → All (λ y. y ≢ x) xs
    → IsDistinct (xs ++ x ∷ [])
IsDistinct-append [] x d h = (tt, tt)
IsDistinct-append (y ∷ ys) x d h =
    (All-snoc (λ z. y ≢ z) ys d.0 h.0, IsDistinct-append ys x d.1 h.1)
