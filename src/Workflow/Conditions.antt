-- ===== src/Workflow/Conditions.antt =====
-- `evaluateConditions` of src/workflow/workflow.service.ts. `none` is the exception of calling
-- `includes` on a value that has no such method.
use meru_core.Base.{
  ℤ, String, Option, none, some, List, [], ◌∷◌, Bool, true, false, not, ◌||◌, ◌==◌, if◌then◌else◌,
  any, all, is_empty, items, Value, null, bool, str, arr, Fields, get_key, strict_eq, Runtime,
}
use meru_core.Rules.Augment.{matches}
use meru_core.Workflow.Types.{Rule, Conditions}

-- `array.includes(value)`: the elements are compared as `===` has it.
array_includes : List Value → Option Value → Bool
array_includes [] v = false
array_includes (x ∷ xs) v = strict_eq (some x) v || array_includes xs v

-- `container?.includes(value)`, as the Boolean that `every` and `some` read
pub includes_in : Runtime → Option Value → Option Value → Option Bool
unfolding array_includes
includes_in rt none v = some false
includes_in rt (some null) v = some false
includes_in rt (some (str s)) v = some (rt.text_includes s v)
includes_in rt (some (arr xs)) v = some (array_includes (items xs) v)
includes_in rt (some _) v = none

pub rule_result : Runtime → Fields → Rule → Option Bool
unfolding includes_in
rule_result rt context r =
    let value = get_key r.field context in
    if r.operator == "equals"
    then some (strict_eq value r.value)
    else if r.operator == "not_equals"
    then some (not (strict_eq value r.value))
    else if r.operator == "greater_than"
    then some (rt.greater value r.value)
    else if r.operator == "less_than"
    then some (rt.greater r.value value)
    else if r.operator == "contains"
    then includes_in rt value r.value
    else if r.operator == "in"
    then includes_in rt r.value value
    else some true

-- `rules.map(…)`: every rule is evaluated before the results are joined.
pub rule_results : Runtime → Fields → List Rule → Option (List Bool)
rule_results rt context [] = some []
rule_results rt context (r ∷ rs) = elim (rule_result rt context r) [
  | none ↦ none
  | some b ↦ elim (rule_results rt context rs) [ none ↦ none | some bs ↦ some (b ∷ bs) ]
]

join_results : String → List Bool → Bool
join_results operator bs = if operator == "AND" then all (λ b. b) bs else any (λ b. b) bs

joined : String → Option (List Bool) → Option Bool
unfolding join_results
joined operator none = none
joined operator (some bs) = some (join_results operator bs)

evaluate_rules : Runtime → Conditions → Fields → Option Bool
unfolding joined
evaluate_rules rt c context =
    if is_empty c.rules then some true else joined c.operator (rule_results rt context c.rules)

-- `conditions?.unevaluable`: an empty text is falsy.
abbrev pub is_unevaluable : Option String → Bool
is_unevaluable none = false
is_unevaluable (some reason) = not (reason == "")

is_true : Value → Bool
is_true (bool b) = b
is_true _ = false

-- No JsonLogic, `true`, or a match.
passes_logic : Runtime → ℤ → Option Value → Fields → Bool
unfolding is_true
passes_logic rt now none context = true
passes_logic rt now (some logic) context = is_true logic || matches rt now (some logic) context

unfoldable pub evaluate_conditions : Runtime → ℤ → Conditions → Fields → Option Bool
unfolding evaluate_rules passes_logic
evaluate_conditions rt now c context =
    if is_unevaluable c.unevaluable
    then some false
    else if not (passes_logic rt now c.json_logic context)
    then some false
    else evaluate_rules rt c context
