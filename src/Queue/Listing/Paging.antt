-- ===== src/Queue/Listing/Paging.antt =====
-- `getJobs` of src/queue/queue.service.ts, page by page.
use meru_core.Base.{
  ℕ, zero, suc, ◌+◌, ◌≤◌, List, [], ◌∷◌, ◌++◌, ◌≡◌, inl, inr, refl, sym, ap, ◌∙◌, arith, filter,
  length, In,
}
use meru_core.Queue.Types.{QueueJob, Queue}
use meru_core.Queue.Listing.{JobFilter, matches_filter, skip_rows, take_rows, get_jobs}
use meru_core.Queue.Listing.Order.{newest_first}

-- The jobs of the first `n` pages, in order, each page in the order of its own query.
abbrev pub pages : (ℕ → List QueueJob → List QueueJob) → JobFilter → ℕ → ℕ → Queue → List QueueJob
pages orders f limit zero q = []
pages orders f limit (suc n) q =
    pages orders f limit n q ++ (get_jobs (orders n) f (suc n) limit q).jobs

module _ {A : Type 0} where
  take_nil : (n : ℕ) → take_rows {A = A} n [] ≡ []
  take_nil zero = refl
  take_nil (suc n) = refl

  pub take_skip :
      (m n : ℕ) (xs : List A)
      → take_rows (m + n) xs ≡ take_rows m xs ++ take_rows n (skip_rows m xs)
  take_skip zero n xs = let same : 0 + n ≡ n = omega arith in ap (λ k. take_rows k xs) same
  take_skip (suc m) n [] = take_nil (suc m + n) ∙ sym (take_nil n)
  take_skip (suc m) n (x ∷ xs) =
      let same : suc m + n ≡ suc (m + n) = omega arith in
      ap (λ k. take_rows k (x ∷ xs)) same ∙ ap (λ ys. x ∷ ys) (take_skip m n xs)

  pub In-take_rows : (n : ℕ) (xs : List A) (a : A) → In a (take_rows n xs) → In a xs
  In-take_rows zero xs a m = absurd m
  In-take_rows (suc n) [] a m = absurd m
  In-take_rows (suc n) (x ∷ xs) a (inl e) = inl e
  In-take_rows (suc n) (x ∷ xs) a (inr m) = inr (In-take_rows n xs a m)

  pub In-skip_rows : (n : ℕ) (xs : List A) (a : A) → In a (skip_rows n xs) → In a xs
  In-skip_rows zero xs a m = m
  In-skip_rows (suc n) [] a m = absurd m
  In-skip_rows (suc n) (x ∷ xs) a m = inr (In-skip_rows n xs a m)

  pub length-take_rows : (n : ℕ) (xs : List A) → length (take_rows n xs) ≤ n
  length-take_rows zero xs = omega arith
  length-take_rows (suc n) [] = omega arith
  length-take_rows (suc n) (x ∷ xs) = omega (arith, length-take_rows n xs)

-- The rows of the filter in the order that no ties leave open.
abbrev pub ordered_rows : JobFilter → Queue → List QueueJob
ordered_rows f q = newest_first (filter (matches_filter f) q.jobs)
