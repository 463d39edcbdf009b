-- ===== src/Scoring/Laws.antt =====
-- The score and the band of src/ai/engines/scoring.engine.ts.
use meru_core.Base.{
  ℤ, pos, ◌+ℤ◌, ◌≤ℤ◌, lt_ℤ, le_ℤ, ◌≡◌, sym, subst, some, List, [], ◌∷◌, true, false, ◌⊎◌, inl, inr,
  arith, filter, find?, map, In, find?-eq-some, All, All-imp, In_of_All, ◌↔◌, Bool-cases, get_or,
  Fields, Runtime,
}
use meru_core.Scoring.{
  Factor, Band, Model, Contribution, contribution, total_weight, insert_band, sort_bands, band_for,
  apply,
}

+ℤ-≤ℤ-add : (a b c d : ℤ) → a ≤ℤ b → c ≤ℤ d → (a +ℤ c) ≤ℤ (b +ℤ d)
+ℤ-≤ℤ-add a b c d h k = ground arith

skip_≤ℤ : (w b c : ℤ) → lt_ℤ (pos 0) w ≡ false → b ≤ℤ c → (w +ℤ b) ≤ℤ c
skip_≤ℤ w b c h k = ground arith

raise_≤ℤ : (w b c : ℤ) → lt_ℤ (pos 0) w ≡ true → b ≤ℤ c → b ≤ℤ (w +ℤ c)
raise_≤ℤ w b c h k = ground arith

≤ℤ_refl : (w : ℤ) → w ≤ℤ w
≤ℤ_refl w = ground arith

module _ (rt : Runtime) (now : ℤ) (data' : Fields) where
  earned : List Factor → ℤ
  earned fs = total_weight (
      map (λ (c : Contribution). c.weight)
        (filter (λ (c : Contribution). c.matched) (map (contribution rt now data') fs)))

  highest : List Factor → ℤ
  highest fs =
      total_weight
        (map (λ (f : Factor). f.weight) (filter (λ (f : Factor). lt_ℤ (pos 0) f.weight) fs))

  earned-≤ℤ-highest : (fs : List Factor) → earned fs ≤ℤ highest fs
  unfolding earned highest contribution
  earned-≤ℤ-highest [] = ground arith
  earned-≤ℤ-highest (f ∷ fs) =
      let rest = earned-≤ℤ-highest fs in
      elim (Bool-cases (contribution rt now data' f).matched) [
        | inl hit ↦ elim (Bool-cases (lt_ℤ (pos 0) f.weight)) [
          | inl up ↦
              rw (hit, up)
                (+ℤ-≤ℤ-add f.weight f.weight (earned fs) (highest fs) (≤ℤ_refl f.weight) rest)
          | inr down ↦ rw (hit, down) (skip_≤ℤ f.weight (earned fs) (highest fs) down rest)
        ]
        | inr miss ↦ elim (Bool-cases (lt_ℤ (pos 0) f.weight)) [
          | inl up ↦ rw (miss, up) (raise_≤ℤ f.weight (earned fs) (highest fs) up rest)
          | inr down ↦ rw (miss, down) rest
        ]
      ]

-- A score never exceeds the maximum that the result states beside it.
pub apply_bounded :
    (rt : Runtime) (now : ℤ) (model : Model) (data' : Fields)
    → (apply rt now model data').score ≤ℤ (apply rt now model data').max_score
unfolding apply earned highest
apply_bounded rt now model data' = earned-≤ℤ-highest rt now data' model.factors

-- Highest threshold first.
abbrev Descending : List Band → Type 0
Descending [] = Unit
Descending (b ∷ bs) = All (λ (c : Band). c.min_score ≤ℤ b.min_score) bs × Descending bs

le-≤ℤ : (a b : ℤ) → le_ℤ a b ≡ true → a ≤ℤ b
le-≤ℤ a b h = ground arith

not_le-≤ℤ : (a b : ℤ) → le_ℤ a b ≡ false → b ≤ℤ a
not_le-≤ℤ a b h = ground arith

≤ℤ_trans : (a b c : ℤ) → a ≤ℤ b → b ≤ℤ c → a ≤ℤ c
≤ℤ_trans a b c h k = ground arith

insert_band-All :
    (P : Band → Type 0) (a : Band) (bs : List Band) → P a → All P bs → All P (insert_band a bs)
insert_band-All P a [] h k = (h, tt)
insert_band-All P a (b ∷ bs) h k = elim (Bool-cases (le_ℤ b.min_score a.min_score)) [
  | inl first ↦ rw first (h, k)
  | inr later ↦ rw later (k.0, insert_band-All P a bs h k.1)
]

insert_band-Descending : (a : Band) (bs : List Band) → Descending bs → Descending (insert_band a bs)
insert_band-Descending a [] h = (tt, tt)
insert_band-Descending a (b ∷ bs) h = elim (Bool-cases (le_ℤ b.min_score a.min_score)) [
  | inl first ↦
      let below = le-≤ℤ b.min_score a.min_score first in
      rw first
        ((below, All-imp (λ c k. ≤ℤ_trans c.min_score b.min_score a.min_score k below) bs h.0), h)
  | inr later ↦ rw later (
    insert_band-All (λ c. c.min_score ≤ℤ b.min_score) a bs (not_le-≤ℤ b.min_score a.min_score later)
        h.0,
    insert_band-Descending a bs h.1,
  )
]

sort_bands-Descending : (bs : List Band) → Descending (sort_bands bs)
sort_bands-Descending [] = tt
sort_bands-Descending (b ∷ bs) = insert_band-Descending b (sort_bands bs) (sort_bands-Descending bs)

In-insert_band : (a c : Band) (bs : List Band) → In c (insert_band a bs) ↔ ((c ≡ a) ⊎ In c bs)
In-insert_band a c [] = (λ m. m, λ m. m)
In-insert_band a c (b ∷ bs) = elim (Bool-cases (le_ℤ b.min_score a.min_score)) [
  | inl first ↦ rw first (λ m. m, λ m. m)
  | inr later ↦
      let rest = In-insert_band a c bs in
      rw later (
        λ m. elim m [
          | inl e ↦ inr (inl e)
          | inr n ↦ elim (rest.0 n) [ inl e ↦ inl e | inr k ↦ inr (inr k) ]
        ],
        λ m. elim m [
          | inl e ↦ inr (rest.1 (inl e))
          | inr n ↦ elim n [ inl e ↦ inl e | inr k ↦ inr (rest.1 (inr k)) ]
        ],
      )
]

In-sort_bands : (c : Band) (bs : List Band) → In c (sort_bands bs) ↔ In c bs
In-sort_bands c [] = (λ m. m, λ m. m)
In-sort_bands c (b ∷ bs) =
    let here = In-insert_band b c (sort_bands bs) in
    let rest = In-sort_bands c bs in
    (
      λ m. elim (here.0 m) [ inl e ↦ inl e | inr k ↦ inr (rest.0 k) ],
      λ m. here.1 (elim m [ inl e ↦ inl e | inr k ↦ inr (rest.1 k) ]),
    )

-- The first that fits has the highest threshold of those that fit.
first_fits :
    (score : ℤ) (bs : List Band) (b c : Band)
    → Descending bs
    → find? (λ (x : Band). le_ℤ x.min_score score) bs ≡ some b
    → In c bs
    → le_ℤ c.min_score score ≡ true
    → c.min_score ≤ℤ b.min_score
first_fits score [] b c d e m k = absurd m
first_fits score (x ∷ bs) b c d e m k = elim (Bool-cases (le_ℤ x.min_score score)) [
  | inl fits ↦
      let same : x ≡ b = cc (rw fits at e) in
      let below : c.min_score ≤ℤ x.min_score = elim m [
        | inl q ↦ subst (λ (y : Band). c.min_score ≤ℤ y.min_score) q (≤ℤ_refl c.min_score)
        | inr n ↦ In_of_All (λ (y : Band). y.min_score ≤ℤ x.min_score) bs d.0 c n
      ] in
      subst (λ (y : Band). c.min_score ≤ℤ y.min_score) same below
  | inr unfit ↦ elim m [
    | inl q ↦ cc (k, subst (λ (y : Band). le_ℤ y.min_score score ≡ false) (sym q) unfit)
    | inr n ↦ first_fits score bs b c d.1 (rw unfit at e) n k
  ]
]

-- The band of a score is a band of the model whose threshold the score reaches, and no band that the
-- score reaches has a higher threshold, in whatever order the model lists them.
pub band_for-highest :
    (model : Model) (score : ℤ) (b : Band)
    → band_for model score ≡ some b
    → In b (get_or model.bands [])
      × (b.min_score ≤ℤ score)
      × ((c : Band)
          → In c (get_or model.bands [])
          → c.min_score ≤ℤ score
          → c.min_score ≤ℤ b.min_score)
unfolding band_for
band_for-highest model score b e =
    let bs = get_or model.bands [] in
    let (m, fits) = find?-eq-some (λ (x : Band). le_ℤ x.min_score score) (sort_bands bs) b e in
    (
      (In-sort_bands b bs).0 m,
      le-≤ℤ b.min_score score fits,
      λ c n k.
          first_fits score (sort_bands bs) b c (sort_bands-Descending bs) e
            ((In-sort_bands c bs).1 n) (ground arith),
    )
