-- ===== src/Rules/Operators.antt =====
-- `findDisallowedOperator` and `validate` of src/rules/rule-evaluator.service.ts.
use meru_core.Base.{
  String, Option, none, some, List, [], ◌∷◌, Bool, ◌==◌, includes, if◌then◌else◌, is_null, Value,
  null, bool, num, str, date, arr, obj, Items, nil, cons, Fields, done, field, Runtime,
}

abbrev pub allowed_ops : List String
allowed_ops =
    "var" ∷ "missing" ∷ "missing_some" ∷ "if" ∷ "==" ∷ "===" ∷ "!=" ∷ "!==" ∷ "!" ∷ "!!" ∷ "or"
    ∷ "and" ∷ ">" ∷ ">=" ∷ "<" ∷ "<=" ∷ "max" ∷ "min" ∷ "+" ∷ "-" ∷ "*" ∷ "/" ∷ "%" ∷ "map"
    ∷ "filter" ∷ "reduce" ∷ "all" ∷ "none" ∷ "some" ∷ "merge" ∷ "in" ∷ "cat" ∷ "substr" ∷ []

unfoldable pub is_allowed : String → Bool
is_allowed op = includes allowed_ops op

-- `if (found) return found;`: an empty text is falsy, and the search goes on.
abbrev pub or_next : Option String → Option String → Option String
or_next none next = next
or_next (some found) next = if found == "" then next else some found

unfoldable mutual
  pub find_disallowed : Value → Option String
  find_disallowed (arr vs) = find_disallowed_items vs
  find_disallowed (obj fs) = find_disallowed_fields fs
  find_disallowed null = none
  find_disallowed (bool b) = none
  find_disallowed (num n e) = none
  find_disallowed (str s) = none
  find_disallowed (date t) = none

  pub find_disallowed_items : Items → Option String
  find_disallowed_items nil = none
  find_disallowed_items (cons v vs) = or_next (find_disallowed v) (find_disallowed_items vs)

  pub find_disallowed_fields : Fields → Option String
  find_disallowed_fields done = none
  find_disallowed_fields (field op args fs) =
      if is_allowed op then or_next (find_disallowed args) (find_disallowed_fields fs) else some op

pub data Validity : Type 0 where
  valid : Validity
  empty_rule : Validity
  not_permitted : String → Validity
  faulty : Validity

abbrev dry_run : Option Value → Validity
dry_run none = faulty
dry_run (some v) = valid

abbrev validate_operators : Runtime → Value → Option String → Validity
validate_operators rt rule none = dry_run (rt.apply_logic rule (obj done))
validate_operators rt rule (some op) =
    if op == "" then dry_run (rt.apply_logic rule (obj done)) else not_permitted op

unfoldable pub validate : Runtime → Option Value → Validity
validate rt none = empty_rule
validate rt (some rule) =
    if is_null rule then empty_rule else validate_operators rt rule (find_disallowed rule)
