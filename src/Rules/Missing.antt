-- ===== src/Rules/Missing.antt =====
-- `lookup` and `missingComparisonVars` of src/rules/rule-evaluator.service.ts.
use meru_core.Base.{
  ℕ, zero, suc, String, Option, none, some, List, [], ◌∷◌, ◌++◌, ◌==◌, includes, if◌then◌else◌,
  is_some, length, items, pos, Value, null, bool, num, str, date, arr, obj, Items, nil, cons,
  Fields, done, field, get_key, split, array_index,
}

abbrev get_elem? : List Value → ℕ → Option Value
get_elem? [] i = none
get_elem? (x ∷ xs) zero = some x
get_elem? (x ∷ xs) (suc i) = get_elem? xs i

element : List Value → String → Option ℕ → Option Value
element vs part none = if part == "length" then some (num (pos (length vs)) 0) else none
element vs part (some i) = get_elem? vs i

-- `current[part]`, and `undefined` where `current` is no object
step_into : Option Value → String → Option Value
unfolding element
step_into none part = none
step_into (some (obj fs)) part = get_key part fs
step_into (some (arr vs)) part = element (items vs) part (array_index part)
step_into (some _) part = none

follow : Option Value → List String → Option Value
follow v [] = v
follow v (part ∷ parts) = follow (step_into v part) parts

unfoldable pub lookup : Fields → String → Option Value
unfolding follow step_into split
lookup context path = elim (get_key path context) [
  | some v ↦ some v
  | none ↦ follow (some (obj context)) (split b'.' path)
]

abbrev pub comparison_ops : List String
comparison_ops = "<" ∷ "<=" ∷ ">" ∷ ">=" ∷ "between" ∷ []

-- The name under a `var`; a second element is the author's own fallback.
abbrev pub var_name : Value → List String
var_name (str s) = s ∷ []
var_name (arr (cons (str s) nil)) = s ∷ []
var_name _ = []

unfoldable mutual
  pub var_names_in : Value → List String
  var_names_in (arr vs) = var_names_items vs
  var_names_in (obj fs) = var_names_fields fs
  var_names_in null = []
  var_names_in (bool b) = []
  var_names_in (num n e) = []
  var_names_in (str s) = []
  var_names_in (date t) = []

  pub var_names_items : Items → List String
  var_names_items nil = []
  var_names_items (cons v vs) = var_names_in v ++ var_names_items vs

  pub var_names_fields : Fields → List String
  var_names_fields done = []
  var_names_fields (field op args fs) =
      (if op == "var" then var_name args else var_names_in args) ++ var_names_fields fs

-- `missing.add(name)` on a `Set`
abbrev pub add : List String → String → List String
add set name = if includes set name then set else set ++ name ∷ []

abbrev pub add_missing : Fields → List String → List String → List String
add_missing context [] set = set
add_missing context (name ∷ names) set =
    add_missing context names (if is_some (lookup context name) then set else add set name)

unfoldable mutual
  pub walk : Value → Fields → List String → List String
  walk (arr vs) context set = walk_items vs context set
  walk (obj fs) context set = walk_fields fs context set
  walk null context set = set
  walk (bool b) context set = set
  walk (num n e) context set = set
  walk (str s) context set = set
  walk (date t) context set = set

  pub walk_items : Items → Fields → List String → List String
  walk_items nil context set = set
  walk_items (cons v vs) context set = walk_items vs context (walk v context set)

  pub walk_fields : Fields → Fields → List String → List String
  walk_fields done context set = set
  walk_fields (field op args fs) context set = walk_fields fs context (
      walk args context
        (if includes comparison_ops op then add_missing context (var_names_in args) set else set))

unfoldable pub missing_comparison_vars : Value → Fields → List String
unfolding walk
missing_comparison_vars rule context = walk rule context []
