-- ===== src/Queue/Claim.antt =====
-- `getNextJob` of src/queue/queue.service.ts: which job a worker is given.
pub mod Chosen
use meru_core.Base.{
  String, Option, none, some, List, [], ◌∷◌, ◌≡◌, refl, sym, subst, Bool, true, false, inl, inr,
  arith, filter, In, All, In-filter_iff, Bool-cases, Option-cases, In_of_All, All-of_In, All-imp,
}
use meru_core.Queue.Types.{QueueJob, JobType, Queue}
use meru_core.Queue.Jobs.{Env, claimable, before, earlier_of, first_of, take_job, get_next_job}

-- `a` stands no later than `b` in the order of the claims.
abbrev pub NoLater : QueueJob → QueueJob → Type 0
NoLater a b = before b a ≡ false

before_trans : (a b c : QueueJob) → NoLater a b → NoLater b c → NoLater a c
before_trans a b c h k = ground arith

before_total : (a b : QueueJob) → before a b ≡ true → NoLater a b
before_total a b h = ground arith

before_irrefl : (a : QueueJob) → NoLater a a
before_irrefl a = ground arith

pub first_of-eq-none : (js : List QueueJob) → first_of js ≡ none → js ≡ []
first_of-eq-none [] e = refl
first_of-eq-none (j ∷ js) e = cc

-- The row that is first, and that no row stands before.
abbrev pub IsFirst : QueueJob → List QueueJob → Type 0
IsFirst j js = In j js × All (NoLater j) js

earlier_of-IsFirst :
    (k : QueueJob) (js : List QueueJob) (o : Option QueueJob)
    → (o ≡ none → js ≡ [])
    → ((j : QueueJob) → o ≡ some j → IsFirst j js)
    → IsFirst (earlier_of k o) (k ∷ js)
earlier_of-IsFirst k js none empty h = rw (empty refl) (inl refl, (before_irrefl k, tt))
earlier_of-IsFirst k js (some j) empty h =
    let (m, least) = h j refl in
    elim (Bool-cases (before j k)) [
      | inl e ↦
          let same : earlier_of k (some j) ≡ j = rw e refl in
          subst (λ x. IsFirst x (k ∷ js)) (sym same) (inr m, (before_total j k e, least))
      | inr e ↦
          let same : earlier_of k (some j) ≡ k = rw e refl in
          subst (λ x. IsFirst x (k ∷ js)) (sym same)
            (inl refl, (before_irrefl k, All-imp (λ x l. before_trans k j x e l) js least))
    ]

pub first_of-IsFirst : (js : List QueueJob) (j : QueueJob) → first_of js ≡ some j → IsFirst j js
first_of-IsFirst [] j e = cc
first_of-IsFirst (k ∷ js) j e =
    subst (λ x. IsFirst x (k ∷ js)) (cc e)
      (earlier_of-IsFirst k js (first_of js) (first_of-eq-none js) (first_of-IsFirst js))

-- How `getNextJob` ends: no job is claimable and nothing changes, or the first of the claimable ones
-- is claimed.
pub data ClaimEnding (env : Env) (types : List JobType) (tenant : Option String) (q : Queue)
    (r : Option QueueJob × Queue) : Type 0 where
  idle :
      r ≡ (none, q)
      → All (λ k. claimable env types tenant k ≡ false) q.jobs
      → ClaimEnding env types tenant q r
  claimed :
      (j : QueueJob)
      → In j q.jobs
      → claimable env types tenant j ≡ true
      → All (λ k. claimable env types tenant k ≡ true → NoLater j k) q.jobs
      → r ≡ take_job env (some j) q
      → ClaimEnding env types tenant q r

module _ {A : Type 0} (p : A → Bool) where
  none_left : (xs : List A) → filter p xs ≡ [] → All (λ a. p a ≡ false) xs
  none_left [] e = tt
  none_left (x ∷ xs) e = elim (Bool-cases (p x)) [
    | inl h ↦ cc (rw h at e)
    | inr h ↦ (h, none_left xs (rw h at e))
  ]

pub get_next_job-Ending :
    (env : Env) (types : List JobType) (tenant : Option String) (q : Queue)
    → ClaimEnding env types tenant q (get_next_job env types tenant q)
unfolding get_next_job
get_next_job-Ending env types tenant q =
    let rows : List QueueJob = filter (claimable env types tenant) q.jobs in
    elim (Option-cases (first_of rows)) [
      | inl e ↦
          idle (rw e refl) (none_left (claimable env types tenant) q.jobs (first_of-eq-none rows e))
      | inr (j, e) ↦
          let (m, least) = first_of-IsFirst rows j e in
          let (inside, passes) = (In-filter_iff (claimable env types tenant) q.jobs j).0 m in
          claimed j inside passes
            (All-of_In q.jobs (λ k n c.
              In_of_All (NoLater j) rows least k
                ((In-filter_iff (claimable env types tenant) q.jobs k).1 (n, c))))
            (rw e refl)
    ]
