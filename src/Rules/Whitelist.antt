-- ===== src/Rules/Whitelist.antt =====
-- The operator whitelist of src/rules/rule-evaluator.service.ts.
use meru_core.Base.{
  String, Option, none, some, ◌≡◌, ◌≢◌, refl, true, false, get_or, ◌⊎◌, inl, inr, arith, eq_iff,
  ◌==◌, Bool-cases, Value, null, bool, num, str, date, arr, obj, Items, nil, cons, Fields, done,
  field, Runtime,
}
use meru_core.Rules.Operators.{
  is_allowed, or_next, find_disallowed, find_disallowed_items, find_disallowed_fields, valid,
  not_permitted, validate,
}

-- `op` stands as an operator somewhere in a rule.
mutual
  pub data Uses (op : String) : Value → Type 0 where
    in_arr : {vs : Items} → UsesItems op vs → Uses op (arr vs)
    in_obj : {fs : Fields} → UsesFields op fs → Uses op (obj fs)

  pub data UsesItems (op : String) : Items → Type 0 where
    first : {v : Value} {vs : Items} → Uses op v → UsesItems op (cons v vs)
    later : {v : Value} {vs : Items} → UsesItems op vs → UsesItems op (cons v vs)

  pub data UsesFields (op : String) : Fields → Type 0 where
    key : {k : String} {v : Value} {fs : Fields} → op ≡ k → UsesFields op (field k v fs)
    inside : {k : String} {v : Value} {fs : Fields} → Uses op v → UsesFields op (field k v fs)
    after : {k : String} {v : Value} {fs : Fields} → UsesFields op fs → UsesFields op (field k v fs)

or_next-eq-some :
    (a b : Option String) (op : String) → or_next a b ≡ some op → (a ≡ some op) ⊎ (b ≡ some op)
or_next-eq-some none b op e = inr e
or_next-eq-some (some x) b op e = elim (Bool-cases (x == "")) [
  | inl h ↦ inr (ground arith)
  | inr h ↦ inl (ground arith)
]

or_next-eq-none :
    (a b : Option String) → or_next a b ≡ none → ((a ≡ none) ⊎ (a ≡ some "")) × (b ≡ none)
or_next-eq-none none b e = (inl refl, e)
or_next-eq-none (some x) b e = ground (arith, eq_iff x "")

mutual
  unfolding find_disallowed

  -- What is reported is an operator of the rule that the whitelist lacks.
  found :
      (v : Value) (op : String) → find_disallowed v ≡ some op → Uses op v × (is_allowed op ≡ false)
  found (arr vs) op e = let (u, q) = found_items vs op e in (in_arr u, q)
  found (obj fs) op e = let (u, q) = found_fields fs op e in (in_obj u, q)
  found null op e = cc
  found (bool b) op e = cc
  found (num n k) op e = cc
  found (str s) op e = cc
  found (date t) op e = cc

  found_items :
      (vs : Items) (op : String)
      → find_disallowed_items vs ≡ some op
      → UsesItems op vs × (is_allowed op ≡ false)
  found_items nil op e = cc
  found_items (cons v vs) op e = elim (or_next-eq-some _ _ op e) [
    | inl h ↦ let (u, q) = found v op h in (first u, q)
    | inr h ↦ let (u, q) = found_items vs op h in (later u, q)
  ]

  found_fields :
      (fs : Fields) (op : String)
      → find_disallowed_fields fs ≡ some op
      → UsesFields op fs × (is_allowed op ≡ false)
  found_fields done op e = cc
  found_fields (field k v fs) op e = elim (Bool-cases (is_allowed k)) [
    | inl h ↦
        elim (or_next-eq-some (find_disallowed v) (find_disallowed_fields fs) op (rw h at e)) [
          | inl g ↦ let (u, q) = found v op g in (inside u, q)
          | inr g ↦ let (u, q) = found_fields fs op g in (after u, q)
        ]
    | inr h ↦ let same : op ≡ k = ground arith in (key same, rw same h)
  ]

-- The falsy name: the search passes over it.
none-or-empty : (a : Option String) → ¬ (a ≡ some "") → (a ≡ none) ⊎ (a ≡ some "") → a ≡ none
none-or-empty a h (inl e) = e
none-or-empty a h (inr e) = absurd (h e)

mutual
  unfolding find_disallowed

  clean :
      (v : Value)
      → ¬ Uses "" v
      → find_disallowed v ≡ none
      → (op : String) → Uses op v
      → is_allowed op ≡ true
  clean (arr vs) h e op (in_arr u) = clean_items vs (λ w. h (in_arr w)) e op u
  clean (obj fs) h e op (in_obj u) = clean_fields fs (λ w. h (in_obj w)) e op u
  clean null h e op u = elim u [ ]
  clean (bool b) h e op u = elim u [ ]
  clean (num n k) h e op u = elim u [ ]
  clean (str s) h e op u = elim u [ ]
  clean (date t) h e op u = elim u [ ]

  clean_items :
      (vs : Items)
      → ¬ UsesItems "" vs
      → find_disallowed_items vs ≡ none
      → (op : String) → UsesItems op vs
      → is_allowed op ≡ true
  clean_items nil h e op u = elim u [ ]
  clean_items (cons v vs) h e op (first u) =
      let (a, b) = or_next-eq-none (find_disallowed v) (find_disallowed_items vs) e in
      clean v (λ w. h (first w)) (none-or-empty _ (λ s. h (first (found v "" s).0)) a) op u
  clean_items (cons v vs) h e op (later u) =
      let (a, b) = or_next-eq-none (find_disallowed v) (find_disallowed_items vs) e in
      clean_items vs (λ w. h (later w)) b op u

  clean_fields :
      (fs : Fields)
      → ¬ UsesFields "" fs
      → find_disallowed_fields fs ≡ none
      → (op : String) → UsesFields op fs
      → is_allowed op ≡ true
  clean_fields done h e op u = elim u [ ]
  clean_fields (field k v fs) h e op (key same) = rw same (ground arith)
  clean_fields (field k v fs) h e op (inside u) =
      let (a, b) = or_next-eq-none (find_disallowed v) (find_disallowed_fields fs) (ground arith) in
      clean v (λ w. h (inside w)) (none-or-empty _ (λ s. h (inside (found v "" s).0)) a) op u
  clean_fields (field k v fs) h e op (after u) =
      let (a, b) = or_next-eq-none (find_disallowed v) (find_disallowed_fields fs) (ground arith) in
      clean_fields fs (λ w. h (after w)) b op u

find_disallowed_of_valid :
    (rt : Runtime) (rule : Value)
    → validate rt (some rule) ≡ valid
    → (find_disallowed rule ≡ none) ⊎ (find_disallowed rule ≡ some "")
unfolding validate
find_disallowed_of_valid rt rule e = ground (arith, eq_iff (get_or (find_disallowed rule) "") "")

-- A rule that validates uses operators of the whitelist alone, wherever they stand in it, if the
-- empty text is not among its keys.
pub validate-is_allowed :
    (rt : Runtime) (rule : Value)
    → ¬ Uses "" rule
    → validate rt (some rule) ≡ valid
    → (op : String) → Uses op rule
    → is_allowed op ≡ true
validate-is_allowed rt rule h e op u =
    clean rule h (none-or-empty _ (λ s. h (found rule "" s).0) (find_disallowed_of_valid rt rule e))
      op u

-- What `validate` refuses by name is an operator of the rule, and not of the whitelist.
pub validate-not_permitted :
    (rt : Runtime) (rule : Value) (op : String)
    → validate rt (some rule) ≡ not_permitted op
    → Uses op rule × (is_allowed op ≡ false)
unfolding validate
validate-not_permitted rt rule op e = found rule op (ground arith)

-- An operator whose name is the empty text is passed over with all that stands below it: a list that
-- holds nothing else is never refused by name.
pub validate_empty_name :
    (rt : Runtime) (inner : Value) (op : String)
    → validate rt (some (arr (cons (obj (field "" inner done)) nil))) ≢ not_permitted op
unfolding validate find_disallowed is_allowed
validate_empty_name rt inner op = ground arith
