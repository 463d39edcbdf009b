-- ===== src/Rules/Augment.antt =====
-- `asDate`, `augment`, `matches` and `evaluate` of src/rules/rule-evaluator.service.ts.
use meru_core.Base.{
  is_empty, ℕ, String, Option, none, some, List, [], ◌∷◌, Bool, true, false, ◌&&◌, ◌||◌,
  if◌then◌else◌, nat_eq, is_some, ℤ, ◌+ℤ◌, negate, div_floor, get_or, is_null, Value, null, num,
  str, date, obj, Fields, done, field, get_key, set_key, truthy, Runtime, ◌+++◌, codes, is_digit,
}
use meru_core.Rules.Missing.{missing_comparison_vars}

-- `/^\d{4}-\d{2}-\d{2}([T ]|$)/`, over the codes of the text
is_dated : List ℕ → Bool
is_dated (y ∷ e ∷ a ∷ r ∷ p ∷ m ∷ n ∷ q ∷ d ∷ b ∷ rest) =
    is_digit y
    && is_digit e
    && is_digit a
    && is_digit r
    && nat_eq p b'-'
    && is_digit m
    && is_digit n
    && nat_eq q b'-'
    && is_digit d
    && is_digit b
    && ends_day rest
  where
    ends_day : List ℕ → Bool
    ends_day [] = true
    ends_day (c ∷ cs) = nat_eq c b'T' || nat_eq c b' '
is_dated _ = false

unfoldable pub as_date : Runtime → Value → Option ℤ
unfolding is_dated
as_date rt (date t) = t
as_date rt (str s) = if is_dated (codes s) then rt.parse_date s else none
as_date rt _ = none

-- `Math.floor((date - now) / 86_400_000)`
days_from : ℤ → ℤ → ℤ
days_from t now = div_floor (t +ℤ negate now) 86400000

-- The two variables that a date-valued field gains.
pub add_days : String → ℤ → ℤ → Fields → Fields
unfolding days_from
add_days key t now out =
    set_key (key +++ "_daysSince") (num (negate (days_from t now)) 0)
      (set_key (key +++ "_daysUntil") (num (days_from t now) 0) out)

-- One pass over an object's own entries, adding to `out`.
pub add_dates : Runtime → ℤ → Fields → Fields → Fields
add_dates rt now done out = out
add_dates rt now (field key v fs) out = elim (as_date rt v) [
  | none ↦ add_dates rt now fs out
  | some t ↦ add_dates rt now fs (add_days key t now out)
]

-- The entries of a nested object: an array has its own treatment, a date none of its own.
nested_fields : Value → Option Fields
nested_fields (obj fs) = some fs
nested_fields (date t) = some done
nested_fields _ = none

-- The loop over `verticalAttributes`, one level deep with its nested objects.
unfoldable pub flatten : Runtime → ℤ → Fields → Fields → Fields
unfolding nested_fields
flatten rt now done out = out
flatten rt now (field key v fs) out =
    let out' = if is_some (get_key key out) then out else set_key key v out in
    flatten rt now fs (elim (as_date rt v) [
      | some t ↦ add_days key t now out'
      | none ↦ elim (nested_fields v) [
        | some inner ↦ set_key key (obj (add_dates rt now inner inner)) out'
        | none ↦ out'
      ]
    ])

flatten_vertical : Runtime → ℤ → Option Value → Fields → Fields
unfolding flatten
flatten_vertical rt now (some (obj fs)) out = flatten rt now fs out
flatten_vertical rt now _ out = out

unfoldable pub augment : Runtime → Fields → ℤ → Fields
unfolding add_dates flatten_vertical
augment rt fields now =
    flatten_vertical rt now (get_key "verticalAttributes" fields)
      (add_dates rt now fields (set_key "_now" (str (rt.to_iso now)) fields))

-- An exception of the package is a `false`.
abbrev pub verdict : Option Value → Bool
verdict none = false
verdict (some v) = truthy v

pub matches_value : Runtime → ℤ → Value → Fields → Bool
matches_value rt now rule fields =
    if is_empty (missing_comparison_vars rule (augment rt fields now))
    then verdict (rt.apply_logic rule (obj (augment rt fields now)))
    else false

unfoldable pub matches : Runtime → ℤ → Option Value → Fields → Bool
unfolding matches_value
matches rt now none fields = false
matches rt now (some rule) fields = if is_null rule then false else matches_value rt now rule fields

unfoldable pub evaluate : Runtime → ℤ → Option Value → Fields → Value
evaluate rt now none fields = null
evaluate rt now (some rule) fields =
    if is_null rule then null else get_or (rt.apply_logic rule (obj (augment rt fields now))) null
