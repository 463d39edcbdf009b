-- ===== src/Rules/Guarding.antt =====
-- The guard of `matches` in src/rules/rule-evaluator.service.ts against variables that a record
-- lacks.
pub mod Variables
pub mod Walk
use meru_core.Base.{
  is_empty, ℤ, String, Option, none, some, List, [], ◌∷◌, ◌≡◌, ◌≢◌, true, false, arith, In, is_null,
  Value, obj, Fields, Runtime, inl, inr, refl,
}
use meru_core.Rules.Missing.{lookup, missing_comparison_vars}
use meru_core.Rules.Augment.{augment, verdict, matches}
use Variables.{Compares}
use Walk.{missing_comparison_vars_iff}

not-is_empty : (xs : List String) (x : String) → In x xs → is_empty xs ≡ false
not-is_empty [] x m = absurd m
not-is_empty (y ∷ xs) x m = refl

-- If a comparison anywhere in a rule reads a variable that the augmented record lacks, the rule does
-- not match, whatever the package says of it.
pub matches_missing :
    (rt : Runtime) (now : ℤ) (rule : Value) (fields : Fields) (name : String)
    → Compares name rule
    → lookup (augment rt fields now) name ≡ none
    → matches rt now (some rule) fields ≡ false
unfolding matches
matches_missing rt now rule fields name c e = ground (
  arith,
  not-is_empty (missing_comparison_vars rule (augment rt fields now)) name
      ((missing_comparison_vars_iff rule (augment rt fields now) name).1 (c, e)),
)

is_empty_of_none : (xs : List String) → ((x : String) → ¬ In x xs) → is_empty xs ≡ true
is_empty_of_none [] h = refl
is_empty_of_none (x ∷ xs) h = absurd (h x (inl refl))

-- If the record has every variable that the rule compares, and the rule is not `null`, a match is the
-- package's answer read as a Boolean, an exception being `false`.
pub matches_present :
    (rt : Runtime) (now : ℤ) (rule : Value) (fields : Fields)
    → is_null rule ≡ false
    → ((name : String) → Compares name rule → lookup (augment rt fields now) name ≢ none)
    → matches rt now (some rule) fields
      ≡ verdict (rt.apply_logic rule (obj (augment rt fields now)))
unfolding matches
matches_present rt now rule fields nonnull h = ground (
  arith,
  is_empty_of_none (missing_comparison_vars rule (augment rt fields now)) (λ x m.
      let (c, e) = (missing_comparison_vars_iff rule (augment rt fields now) x).0 m in h x c e),
)
