-- ===== src/Rules/Guarding/Walk.antt =====
-- What the walk of `missingComparisonVars` in src/rules/rule-evaluator.service.ts collects.
use meru_core.Base.{
  String, none, List, [], ◌∷◌, ◌≡◌, refl, ◌⊎◌, inl, inr, ◌↔◌, arith, In, includes, includes_iff,
  In-append_left, In-append_right, In-append_cases, Bool-cases, Option-cases, Value, null, bool,
  num, str, date, arr, obj, Items, nil, cons, Fields, done, field, is_some, if◌then◌else◌,
}
use meru_core.Rules.Missing.{
  lookup, comparison_ops, var_names_in, add, add_missing, walk, walk_items, walk_fields,
  missing_comparison_vars,
}
use meru_core.Rules.Guarding.Variables.{
  Compares, ComparesItems, ComparesFields, in_arr, in_obj, first, later, compared, inside, after,
  reads, listed,
}

In-add : (set : List String) (name : String) → In name (add set name)
In-add set name = elim (Bool-cases (includes set name)) [
  | inl h ↦ rw h ((includes_iff set name).0 h)
  | inr h ↦ rw h (In-append_right set (name ∷ []) name (inl refl))
]

In-add_left : (set : List String) (other name : String) → In name set → In name (add set other)
In-add_left set other name m = elim (Bool-cases (includes set other)) [
  | inl h ↦ rw h m
  | inr h ↦ rw h (In-append_left set (other ∷ []) name m)
]

In-add_cases :
    (set : List String) (other name : String)
    → In name (add set other)
    → In name set ⊎ (name ≡ other)
In-add_cases set other name m = elim (Bool-cases (includes set other)) [
  | inl h ↦ inl (rw h at m)
  | inr h ↦ elim (In-append_cases set (other ∷ []) name (rw h at m)) [
    | inl n ↦ inl n
    | inr n ↦ inr (ground arith)
  ]
]

module _ (context : Fields) (name : String) where
  add_missing_mono :
      (names set : List String) → In name set → In name (add_missing context names set)
  add_missing_mono [] set m = m
  add_missing_mono (n ∷ names) set m = elim (Bool-cases (is_some (lookup context n))) [
    | inl h ↦ rw h (add_missing_mono names set m)
    | inr h ↦ rw h (add_missing_mono names (add set n) (In-add_left set n name m))
  ]

  add_missing-adds :
      (names set : List String)
      → lookup context name ≡ none
      → In name names
      → In name (add_missing context names set)
  add_missing-adds [] set e m = absurd m
  add_missing-adds (n ∷ names) set e (inl same) =
      rw (← same) (rw e (add_missing_mono names (add set name) (In-add set name)))
  add_missing-adds (n ∷ names) set e (inr m) =
      add_missing-adds names (if is_some (lookup context n) then set else add set n) e m

  add_missing_only :
      (names set : List String)
      → In name (add_missing context names set)
      → In name set ⊎ (In name names × (lookup context name ≡ none))
  add_missing_only [] set m = inl m
  add_missing_only (n ∷ names) set m = elim (Option-cases (lookup context n)) [
    | inr (v, h) ↦ elim (add_missing_only names set (rw h at m)) [
      | inl k ↦ inl k
      | inr k ↦ inr (inr k.0, k.1)
    ]
    | inl h ↦ elim (add_missing_only names (add set n) (rw h at m)) [
      | inl k ↦ elim (In-add_cases set n name k) [
        | inl j ↦ inl j
        | inr same ↦ inr (inl same, rw same h)
      ]
      | inr k ↦ inr (inr k.0, k.1)
    ]
  ]

  mutual
    unfolding walk

    walk_mono : (v : Value) (set : List String) → In name set → In name (walk v context set)
    walk_mono (arr vs) set m = walk_items_mono vs set m
    walk_mono (obj fs) set m = walk_fields_mono fs set m
    walk_mono null set m = m
    walk_mono (bool b) set m = m
    walk_mono (num n k) set m = m
    walk_mono (str s) set m = m
    walk_mono (date t) set m = m

    walk_items_mono :
        (vs : Items) (set : List String) → In name set → In name (walk_items vs context set)
    walk_items_mono nil set m = m
    walk_items_mono (cons v vs) set m = walk_items_mono vs (walk v context set) (walk_mono v set m)

    walk_fields_mono :
        (fs : Fields) (set : List String) → In name set → In name (walk_fields fs context set)
    walk_fields_mono done set m = m
    walk_fields_mono (field op v fs) set m = elim (Bool-cases (includes comparison_ops op)) [
      | inl h ↦
          rw h (walk_fields_mono fs _ (walk_mono v _ (add_missing_mono (var_names_in v) set m)))
      | inr h ↦ rw h (walk_fields_mono fs _ (walk_mono v set m))
    ]

  module _ (e : lookup context name ≡ none) where
    mutual
      unfolding walk

      collects : (v : Value) (set : List String) → Compares name v → In name (walk v context set)
      collects (arr vs) set (in_arr u) = collects_items vs set u
      collects (obj fs) set (in_obj u) = collects_fields fs set u
      collects null set u = elim u [ ]
      collects (bool b) set u = elim u [ ]
      collects (num n k) set u = elim u [ ]
      collects (str s) set u = elim u [ ]
      collects (date t) set u = elim u [ ]

      collects_items :
          (vs : Items) (set : List String)
          → ComparesItems name vs
          → In name (walk_items vs context set)
      collects_items nil set u = elim u [ ]
      collects_items (cons v vs) set (first u) =
          walk_items_mono vs (walk v context set) (collects v set u)
      collects_items (cons v vs) set (later u) = collects_items vs (walk v context set) u

      collects_fields :
          (fs : Fields) (set : List String)
          → ComparesFields name fs
          → In name (walk_fields fs context set)
      collects_fields done set u = elim u [ ]
      collects_fields (field op v fs) set (compared m r) =
          rw ((includes_iff comparison_ops op).1 m) (
            walk_fields_mono fs _
              (walk_mono v _ (add_missing-adds (var_names_in v) set e (listed name v r))))
      collects_fields (field op v fs) set (inside u) = walk_fields_mono fs _ (
          collects v
            (if includes comparison_ops op then add_missing context (var_names_in v) set else set)
            u)
      collects_fields (field op v fs) set (after u) =
          collects_fields fs
            (walk v context (
              if includes comparison_ops op then add_missing context (var_names_in v) set else set))
            u

  mutual
    unfolding walk

    only :
        (v : Value) (set : List String)
        → In name (walk v context set)
        → In name set ⊎ (Compares name v × (lookup context name ≡ none))
    only (arr vs) set m = elim (only_items vs set m) [
      | inl k ↦ inl k
      | inr k ↦ inr (in_arr k.0, k.1)
    ]
    only (obj fs) set m = elim (only_fields fs set m) [
      | inl k ↦ inl k
      | inr k ↦ inr (in_obj k.0, k.1)
    ]
    only null set m = inl m
    only (bool b) set m = inl m
    only (num n k) set m = inl m
    only (str s) set m = inl m
    only (date t) set m = inl m

    only_items :
        (vs : Items) (set : List String)
        → In name (walk_items vs context set)
        → In name set ⊎ (ComparesItems name vs × (lookup context name ≡ none))
    only_items nil set m = inl m
    only_items (cons v vs) set m = elim (only_items vs (walk v context set) m) [
      | inl k ↦ elim (only v set k) [ inl j ↦ inl j | inr j ↦ inr (first j.0, j.1) ]
      | inr k ↦ inr (later k.0, k.1)
    ]

    only_fields :
        (fs : Fields) (set : List String)
        → In name (walk_fields fs context set)
        → In name set ⊎ (ComparesFields name fs × (lookup context name ≡ none))
    only_fields done set m = inl m
    only_fields (field op v fs) set m = elim (only_fields fs _ m) [
      | inr k ↦ inr (after k.0, k.1)
      | inl k ↦ elim (only v _ k) [
        | inr j ↦ inr (inside j.0, j.1)
        | inl j ↦ elim (Bool-cases (includes comparison_ops op)) [
          | inr h ↦ inl (rw h at j)
          | inl h ↦ elim (add_missing_only (var_names_in v) set (rw h at j)) [
            | inl i ↦ inl i
            | inr i ↦ inr (compared ((includes_iff comparison_ops op).0 h) (reads name v i.0), i.1)
          ]
        ]
      ]
    ]

-- The variables reported missing are those that a comparison of the rule reads and the record lacks.
pub missing_comparison_vars_iff :
    (rule : Value) (context : Fields) (name : String)
    → In name (missing_comparison_vars rule context)
      ↔ (Compares name rule × (lookup context name ≡ none))
unfolding missing_comparison_vars
missing_comparison_vars_iff rule context name = (
  λ m. elim (only context name rule [] m) [ inl k ↦ absurd k | inr k ↦ k ],
  λ w. collects context name w.1 rule [] w.0,
)
