-- ===== src/Workflow/Tat/Times.antt =====
-- The stages of an instance and the percentiles of src/workflow/services/tat.service.ts.
use meru_core.Base.{
  ℕ, zero, suc, ◌+◌, ◌-◌, ◌≤◌, ◌<◌, ◌≡◌, ◌≢◌, refl, ap, ◌∙◌, some, List, [], ◌∷◌, ◌⊎◌, inl, inr,
  arith, leb, length, get_or, In, Bool-cases,
}
use meru_core.Workflow.Types.{HistoryEntry}
use meru_core.Workflow.Tat.{
  StageTat, closed_stages, last_cursor, insert, sort, at_index, rank, percentile,
}

-- Every entry is at or after the one before.
abbrev pub IsChronological : ℕ → List HistoryEntry → Type 0
IsChronological cursor [] = Unit
IsChronological cursor (e ∷ es) = (cursor ≤ e.timestamp) × IsChronological e.timestamp es

-- Each stage begins when the one before ends, the first at `cursor`.
abbrev pub IsContiguous : ℕ → List StageTat → Type 0
IsContiguous cursor [] = Unit
IsContiguous cursor (s ∷ ss) =
    (s.entered_at ≡ cursor) × ((t : ℕ) × (s.exited_at ≡ some t) × (cursor ≤ t) × IsContiguous t ss)

-- The milliseconds that the stages take together.
abbrev pub milliseconds : List StageTat → ℕ
milliseconds [] = 0
milliseconds (s ∷ ss) = (get_or s.exited_at s.entered_at - s.entered_at) + milliseconds ss

-- The stages that an instance has left follow one upon the other without a gap, and their times add up
-- to the time from its creation to its last transition, if the history is in chronological order.
pub closed_stages-IsContiguous :
    (created : ℕ) (h : List HistoryEntry)
    → IsChronological created h
    → IsContiguous created (closed_stages created h)
      × (created + milliseconds (closed_stages created h) ≡ last_cursor created h)
unfolding closed_stages
closed_stages-IsContiguous created [] k = (tt, ground arith)
closed_stages-IsContiguous created (e ∷ es) k =
    let (c, q) = closed_stages-IsContiguous e.timestamp es k.1 in
    ((refl, (e.timestamp, refl, k.0, c)), ground (arith, q, k.0))

insert-In : (a x : ℕ) (bs : List ℕ) → In x (insert a bs) → (x ≡ a) ⊎ In x bs
insert-In a x [] (inl e) = inl e
insert-In a x [] (inr m) = absurd m
insert-In a x (b ∷ bs) m = elim (Bool-cases (leb a b)) [
  | inl first ↦ rw first at m
  | inr later ↦
      let there : (x ≡ b) ⊎ In x (insert a bs) = rw later at m in
      elim there [
        | inl e ↦ inr (inl e)
        | inr n ↦ elim (insert-In a x bs n) [ inl e ↦ inl e | inr k ↦ inr (inr k) ]
      ]
]

sort-In : (x : ℕ) (as_ : List ℕ) → In x (sort as_) → In x as_
sort-In x [] m = absurd m
sort-In x (a ∷ as_) m = elim (insert-In a x (sort as_) m) [
  | inl e ↦ inl e
  | inr n ↦ inr (sort-In x as_ n)
]

length-insert : (a : ℕ) (bs : List ℕ) → length (insert a bs) ≡ suc (length bs)
length-insert a [] = refl
length-insert a (b ∷ bs) = elim (Bool-cases (leb a b)) [
  | inl first ↦ rw first
  | inr later ↦ rw later (ap suc (length-insert a bs))
]

length-sort : (as_ : List ℕ) → length (sort as_) ≡ length as_
length-sort [] = refl
length-sort (a ∷ as_) = length-insert a (sort as_) ∙ ap suc (length-sort as_)

at_index-In : (as_ : List ℕ) (i : ℕ) → i < length as_ → In (at_index as_ i) as_
at_index-In [] i h = ground arith
at_index-In (a ∷ as_) zero h = inl refl
at_index-In (a ∷ as_) (suc i) h = inr (at_index-In as_ i (ground arith))

rank-lt : (p n : ℕ) → 0 < n → rank p n - 1 < n
rank-lt p n h = ground arith

-- A percentile of values that are some is one of them, whatever the percentage.
pub percentile-In : (values : List ℕ) (p : ℕ) → values ≢ [] → In (percentile values p) values
unfolding percentile
percentile-In [] p h = absurd (h refl)
percentile-In (v ∷ vs) p h = sort-In _ (v ∷ vs) (
    at_index-In (sort (v ∷ vs)) _
      (rw (length-sort (v ∷ vs)) (rank-lt p (suc (length vs)) (ground arith))))
