-- ===== src/Rules/Tests.antt =====
-- The theorems on rules at concrete rules and records.
use meru_core.Base.{
  pos, none, some, ◌≡◌, ◌↔◌, refl, inl, true, false, In, Runtime, Value, bool, num, str, arr, obj,
  nil, cons, Fields, done, field,
}
use meru_core.Rules.Missing.{lookup, missing_comparison_vars, var_names_in}
use meru_core.Rules.Augment.{augment, as_date, matches}
use meru_core.Rules.Guarding.{matches_missing}
use meru_core.Rules.Guarding.Variables.{Compares, ComparesFields, Reads, ReadsItems, ReadsFields}
use meru_core.Rules.Guarding.Walk.{missing_comparison_vars_iff}

-- A runtime whose rule package answers `true` to every rule.
abbrev agreeing : Runtime
agreeing = record {
  apply_logic = λ rule data'. some (bool true);
  parse_json = λ text. none;
  parse_date = λ text. none;
  to_iso = λ t. "1970-01-01T00:00:00.000Z";
  greater = λ a b. false;
  text_includes = λ text v. false;
  trim_lower = λ text. text;
}

-- `{"<": [{"var": "daysLeft"}, 30]}`
abbrev expiring : Value
expiring = obj (
    field "<" (arr (cons (obj (field "var" (str "daysLeft") done)) (cons (num (pos 30) 0) nil)))
      done)

-- `{"exec": 1}`
abbrev hostile : Value
hostile = obj (field "exec" (num (pos 1) 0) done)

abbrev named_record : Fields
named_record = field "name" (str "Ada") done

abbrev dated_record : Fields
dated_record = field "daysLeft" (num (pos 3) 0) done

expiring-Compares : Compares "daysLeft" expiring
expiring-Compares = Compares.in_obj (
    ComparesFields.compared (inl refl)
      (Reads.in_arr (ReadsItems.first (Reads.in_obj (ReadsFields.var refl (inl refl))))))

matches_missing_example : matches agreeing (pos 0) (some expiring) named_record ≡ false
matches_missing_example =
    matches_missing agreeing (pos 0) expiring named_record "daysLeft" expiring-Compares
      (unfold lookup augment as_date in refl)

matches_dated : matches agreeing (pos 0) (some expiring) dated_record ≡ true
unfolding matches
matches_dated = unfold missing_comparison_vars var_names_in lookup augment as_date in refl

missing_comparison_vars_iff_example :
    In "daysLeft" (missing_comparison_vars expiring named_record)
    ↔ (Compares "daysLeft" expiring × (lookup named_record "daysLeft" ≡ none))
missing_comparison_vars_iff_example = missing_comparison_vars_iff expiring named_record "daysLeft"
