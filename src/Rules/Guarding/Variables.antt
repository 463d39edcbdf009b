-- ===== src/Rules/Guarding/Variables.antt =====
-- The variables that a rule compares, as a relation, and the walk that collects those missing.
use meru_core.Base.{
  String, ◌≡◌, ◌≢◌, refl, false, ◌⊎◌, inl, inr, arith, In, In-append_left, In-append_right,
  In-append_cases, eq_iff, ◌==◌, if◌then◌else◌, Bool-cases, Value, null, bool, num, str, date, arr,
  obj, Items, nil, cons, Fields, done, field,
}
use meru_core.Rules.Missing.{
  comparison_ops, var_name, var_names_in, var_names_items, var_names_fields,
}

-- `{"var": name}` or `{"var": [name]}`: no fallback stands beside the name.
abbrev pub IsName : String → Value → Type 0
IsName name v = (v ≡ str name) ⊎ (v ≡ arr (cons (str name) nil))

-- The variable `name` is read somewhere in a value.
mutual
  pub data Reads (name : String) : Value → Type 0 where
    in_arr : {vs : Items} → ReadsItems name vs → Reads name (arr vs)
    in_obj : {fs : Fields} → ReadsFields name fs → Reads name (obj fs)

  pub data ReadsItems (name : String) : Items → Type 0 where
    first : {v : Value} {vs : Items} → Reads name v → ReadsItems name (cons v vs)
    later : {v : Value} {vs : Items} → ReadsItems name vs → ReadsItems name (cons v vs)

  pub data ReadsFields (name : String) : Fields → Type 0 where
    var :
        {k : String} {v : Value} {fs : Fields}
        → k ≡ "var"
        → IsName name v
        → ReadsFields name (field k v fs)
    inside :
        {k : String} {v : Value} {fs : Fields}
        → k ≢ "var"
        → Reads name v
        → ReadsFields name (field k v fs)
    after :
        {k : String} {v : Value} {fs : Fields}
        → ReadsFields name fs
        → ReadsFields name (field k v fs)

-- Some comparison in a rule reads the variable `name`.
mutual
  pub data Compares (name : String) : Value → Type 0 where
    in_arr : {vs : Items} → ComparesItems name vs → Compares name (arr vs)
    in_obj : {fs : Fields} → ComparesFields name fs → Compares name (obj fs)

  pub data ComparesItems (name : String) : Items → Type 0 where
    first : {v : Value} {vs : Items} → Compares name v → ComparesItems name (cons v vs)
    later : {v : Value} {vs : Items} → ComparesItems name vs → ComparesItems name (cons v vs)

  pub data ComparesFields (name : String) : Fields → Type 0 where
    compared :
        {k : String} {v : Value} {fs : Fields}
        → In k comparison_ops
        → Reads name v
        → ComparesFields name (field k v fs)
    inside :
        {k : String} {v : Value} {fs : Fields}
        → Compares name v
        → ComparesFields name (field k v fs)
    after :
        {k : String} {v : Value} {fs : Fields}
        → ComparesFields name fs
        → ComparesFields name (field k v fs)

IsName-of_In : (name : String) (v : Value) → In name (var_name v) → IsName name v
IsName-of_In name (str s) m = inl (ground arith)
IsName-of_In name (arr (cons (str s) nil)) m = inr (ground arith)
IsName-of_In name _ m = ground arith

In-of_IsName : (name : String) (v : Value) → IsName name v → In name (var_name v)
In-of_IsName name v (inl e) = rw e (inl refl)
In-of_IsName name v (inr e) = rw e (inl refl)

mutual
  unfolding var_names_in

  pub reads : (name : String) (v : Value) → In name (var_names_in v) → Reads name v
  reads name (arr vs) m = in_arr (reads_items name vs m)
  reads name (obj fs) m = in_obj (reads_fields name fs m)
  reads name null m = absurd m
  reads name (bool b) m = absurd m
  reads name (num n k) m = absurd m
  reads name (str s) m = absurd m
  reads name (date t) m = absurd m

  reads_items : (name : String) (vs : Items) → In name (var_names_items vs) → ReadsItems name vs
  reads_items name nil m = absurd m
  reads_items name (cons v vs) m =
      elim (In-append_cases (var_names_in v) (var_names_items vs) name m) [
        | inl n ↦ first (reads name v n)
        | inr n ↦ later (reads_items name vs n)
      ]

  reads_fields : (name : String) (fs : Fields) → In name (var_names_fields fs) → ReadsFields name fs
  reads_fields name done m = absurd m
  reads_fields name (field k v fs) m = elim (Bool-cases (k == "var")) [
    | inl h ↦ elim (In-append_cases (var_name v) (var_names_fields fs) name (rw h at m)) [
      | inl n ↦ var ((eq_iff k "var").0 h) (IsName-of_In name v n)
      | inr n ↦ after (reads_fields name fs n)
    ]
    | inr h ↦ elim (In-append_cases (var_names_in v) (var_names_fields fs) name (rw h at m)) [
      | inl n ↦ inside (ground (arith, eq_iff k "var")) (reads name v n)
      | inr n ↦ after (reads_fields name fs n)
    ]
  ]

mutual
  unfolding var_names_in

  pub listed : (name : String) (v : Value) → Reads name v → In name (var_names_in v)
  listed name (arr vs) (in_arr u) = listed_items name vs u
  listed name (obj fs) (in_obj u) = listed_fields name fs u
  listed name null u = elim u [ ]
  listed name (bool b) u = elim u [ ]
  listed name (num n k) u = elim u [ ]
  listed name (str s) u = elim u [ ]
  listed name (date t) u = elim u [ ]

  listed_items : (name : String) (vs : Items) → ReadsItems name vs → In name (var_names_items vs)
  listed_items name nil u = elim u [ ]
  listed_items name (cons v vs) (first u) =
      In-append_left (var_names_in v) (var_names_items vs) name (listed name v u)
  listed_items name (cons v vs) (later u) =
      In-append_right (var_names_in v) (var_names_items vs) name (listed_items name vs u)

  listed_fields :
      (name : String) (fs : Fields) → ReadsFields name fs → In name (var_names_fields fs)
  listed_fields name done u = elim u [ ]
  listed_fields name (field k v fs) (var e n) =
      rw ((eq_iff k "var").1 e)
        (In-append_left (var_name v) (var_names_fields fs) name (In-of_IsName name v n))
  listed_fields name (field k v fs) (inside ne u) =
      let other : (k == "var") ≡ false = ground (arith, eq_iff k "var") in
      rw other (In-append_left (var_names_in v) (var_names_fields fs) name (listed name v u))
  listed_fields name (field k v fs) (after u) =
      In-append_right (if◌then◌else◌ (k == "var") (var_name v) (var_names_in v))
        (var_names_fields fs) name (listed_fields name fs u)
