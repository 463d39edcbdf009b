-- ===== src/Queue/Listing/Order.antt =====
-- `ORDER BY "createdAt" DESC` of src/queue/queue.service.ts: what it says of the rows that a query returns,
-- and that it says all where no two rows were created at one instant.
use meru_core.Base.{
  suc, ◌≤◌, ◌<◌, List, [], ◌∷◌, ◌≡◌, refl, sym, ap, ◌∙◌, inl, inr, Bool, true, false, arith, filter,
  length, In, Bool-cases, leb, nat_eq, if◌then◌else◌, ◌↔◌, ◌⊎◌,
}
use meru_core.Queue.Types.{QueueJob}

abbrev pub IsNewestFirst : List QueueJob → Type 0
IsNewestFirst [] = Unit
IsNewestFirst (j ∷ []) = Unit
IsNewestFirst (j ∷ k ∷ ks) = (k.created_at ≤ j.created_at) × IsNewestFirst (k ∷ ks)

-- The two lists have the same rows, each as often.
abbrev pub HasSameRows : List QueueJob → List QueueJob → Type 0
HasSameRows js ks =
    ((k : QueueJob) → In k js → In k ks)
    × ((p : QueueJob → Bool) → length (filter p js) ≡ length (filter p ks))

-- An order in which a query may return its rows: newest first, in any order where two rows tie.
abbrev pub IsOrder : (List QueueJob → List QueueJob) → Type 0
IsOrder ordered = (js : List QueueJob) → IsNewestFirst (ordered js) × HasSameRows (ordered js) js

-- Rows that were created at one instant are one row.
abbrev pub HasNoTies : List QueueJob → Type 0
HasNoTies js = (a b : QueueJob) → In a js → In b js → a.created_at ≡ b.created_at → a ≡ b

newest_is_first :
    (j : QueueJob) (js : List QueueJob) (k : QueueJob)
    → IsNewestFirst (j ∷ js)
    → In k (j ∷ js)
    → k.created_at ≤ j.created_at
newest_is_first j js k h (inl e) = rw e (omega arith)
newest_is_first j [] k h (inr m) = absurd m
newest_is_first j (i ∷ is) k h (inr m) = omega (arith, h.0, newest_is_first i is k h.1 m)

tail-IsNewestFirst : (j : QueueJob) (js : List QueueJob) → IsNewestFirst (j ∷ js) → IsNewestFirst js
tail-IsNewestFirst j [] h = tt
tail-IsNewestFirst j (k ∷ ks) h = h.1

counted_in :
    (p : QueueJob → Bool) (js : List QueueJob)
    → 0 < length (filter p js)
    → (k : QueueJob) × In k js × (p k ≡ true)
counted_in p [] h = absurd (omega (arith, h))
counted_in p (j ∷ js) h = elim (Bool-cases (p j)) [
  | inl e ↦ (j, inl refl, e)
  | inr e ↦ let (k, m, q) = counted_in p js (rw e at h) in (k, inr m, q)
]

-- The row that is first in one list was created no later than the one that is first in the other.
no_later :
    (j k : QueueJob) (js ks : List QueueJob)
    → IsNewestFirst (k ∷ ks)
    → ((p : QueueJob → Bool) → length (filter p (j ∷ js)) ≡ length (filter p (k ∷ ks)))
    → j.created_at ≤ k.created_at
no_later j k js ks newest alike =
    let at : QueueJob → Bool = λ x. nat_eq x.created_at j.created_at in
    let own : at j ≡ true = ground arith in
    let one : 0 < length (filter at (j ∷ js)) = rw own (omega arith) in
    let (x, m, q) = counted_in at (k ∷ ks) (omega (arith, one, alike at)) in
    let same : x.created_at ≡ j.created_at = ground (arith, q) in
    omega (arith, same, newest_is_first k ks x newest m)

pub order_unique :
    (rows js ks : List QueueJob)
    → HasNoTies rows
    → IsNewestFirst js
    → IsNewestFirst ks
    → ((k : QueueJob) → In k js → In k rows)
    → ((k : QueueJob) → In k ks → In k rows)
    → ((p : QueueJob → Bool) → length (filter p js) ≡ length (filter p ks))
    → js ≡ ks
order_unique rows [] [] ties h l m n alike = refl
order_unique rows [] (k ∷ ks) ties h l m n alike = absurd (omega (arith, alike (λ x. true)))
order_unique rows (j ∷ js) [] ties h l m n alike = absurd (omega (arith, alike (λ x. true)))
order_unique rows (j ∷ js) (k ∷ ks) ties h l m n alike =
    let same : j ≡ k =
      ties j k (m j (inl refl)) (n k (inl refl))
        (omega (arith, no_later j k js ks l alike, no_later k j ks js h (λ p. sym (alike p)))) in
    let rest : js ≡ ks =
      order_unique rows js ks ties (tail-IsNewestFirst j js h) (tail-IsNewestFirst k ks l)
        (λ x i. m x (inr i)) (λ x i. n x (inr i)) (λ p. tails p same) in
    cc (same, rest)
  where
    tails : (p : QueueJob → Bool) → j ≡ k → length (filter p js) ≡ length (filter p ks)
    tails p same =
        let here : length (filter p (j ∷ js)) ≡ length (filter p (k ∷ ks)) = alike p in
        elim (Bool-cases (p j)) [
          | inl e ↦
              let f : p k ≡ true = ap p (sym same) ∙ e in
              let both : suc (length (filter p js)) ≡ suc (length (filter p ks)) =
                rw (e, f) at here in
              omega (arith, both)
          | inr e ↦ let f : p k ≡ false = ap p (sym same) ∙ e in rw (e, f) at here
        ]

-- The order of the table where two rows tie.
abbrev pub insert_newest : QueueJob → List QueueJob → List QueueJob
insert_newest j [] = j ∷ []
insert_newest j (k ∷ ks) =
    let rest = insert_newest j ks in if leb k.created_at j.created_at then j ∷ k ∷ ks else k ∷ rest

abbrev pub newest_first : List QueueJob → List QueueJob
newest_first [] = []
newest_first (j ∷ js) = insert_newest j (newest_first js)

insert_newest-IsNewestFirst :
    (j : QueueJob) (js : List QueueJob) → IsNewestFirst js → IsNewestFirst (insert_newest j js)
insert_newest-IsNewestFirst j [] h = tt
insert_newest-IsNewestFirst j (k ∷ []) h = ground arith
insert_newest-IsNewestFirst j (k ∷ i ∷ is) h =
    ground (arith, insert_newest-IsNewestFirst j (i ∷ is) h.1)

pub newest_first-IsNewestFirst : (js : List QueueJob) → IsNewestFirst (newest_first js)
newest_first-IsNewestFirst [] = tt
newest_first-IsNewestFirst (j ∷ js) =
    insert_newest-IsNewestFirst j (newest_first js) (newest_first-IsNewestFirst js)

insert_newest-In_iff :
    (j k : QueueJob) (js : List QueueJob) → In k (insert_newest j js) ↔ ((k ≡ j) ⊎ In k js)
insert_newest-In_iff j k [] = (λ m. m, λ m. m)
insert_newest-In_iff j k (i ∷ is) = elim (Bool-cases (leb i.created_at j.created_at)) [
  | inl e ↦ rw (insert_newest, e) (λ m. m, λ m. m)
  | inr e ↦ grind (arith, e, insert_newest-In_iff j k is)
]

pub newest_first-In_iff : (k : QueueJob) (js : List QueueJob) → In k (newest_first js) ↔ In k js
newest_first-In_iff k [] = (λ m. m, λ m. m)
newest_first-In_iff k (j ∷ js) =
    grind (arith, insert_newest-In_iff j k (newest_first js), newest_first-In_iff k js)

count-insert_newest :
    (p : QueueJob → Bool) (j : QueueJob) (js : List QueueJob)
    → length (filter p (insert_newest j js)) ≡ length (filter p (j ∷ js))
count-insert_newest p j [] = refl
count-insert_newest p j (k ∷ ks) = ground (arith, count-insert_newest p j ks)

count-newest_first :
    (p : QueueJob → Bool) (js : List QueueJob)
    → length (filter p (newest_first js)) ≡ length (filter p js)
count-newest_first p [] = refl
count-newest_first p (j ∷ js) =
    ground (arith, count-insert_newest p j (newest_first js), count-newest_first p js)

pub newest_first-IsOrder : IsOrder newest_first
newest_first-IsOrder js = (
  newest_first-IsNewestFirst js,
  (λ k m. (newest_first-In_iff k js).0 m, λ p. count-newest_first p js),
)

length-insert_newest :
    (j : QueueJob) (js : List QueueJob) → length (insert_newest j js) ≡ suc (length js)
length-insert_newest j [] = refl
length-insert_newest j (k ∷ ks) = ground (arith, length-insert_newest j ks)

pub length-newest_first : (js : List QueueJob) → length (newest_first js) ≡ length js
length-newest_first [] = refl
length-newest_first (j ∷ js) =
    omega (arith, length-insert_newest j (newest_first js), length-newest_first js)
