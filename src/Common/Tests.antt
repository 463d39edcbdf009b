-- ===== src/Common/Tests.antt =====
-- Merges, fields and pages at concrete values.
use meru_core.Base.{
  ℕ, String, none, some, List, [], ◌∷◌, ◌++◌, ◌≡◌, refl, false, includes, pos, null, num, str, obj,
  Fields, done, field, get_key,
}
use meru_core.Common.Merge.{forbidden_keys, deep_merge}
use meru_core.Common.Merge.Laws.{expected, get_key-deep_merge}
use meru_core.Common.Csv.{csv_field, defuse, quote_field, to_csv, join, is_formula}
use meru_core.Common.Csv.Laws.{read_field, read_field-csv_field}

abbrev stored : Fields
stored =
    field "lead" (obj (field "name" (str "Ada") (field "stage" (str "new") done)))
      (field "score" (num (pos 3) 0) done)

-- The stage changes, the score goes, and the prototype is left alone.
abbrev change : Fields
change =
    field "lead" (obj (field "stage" (str "won") done))
      (field "score" null (field "__proto__" (obj done) done))

merge_test :
    deep_merge stored change
    ≡ field "lead" (obj (field "name" (str "Ada") (field "stage" (str "won") done))) done
unfolding deep_merge
merge_test = refl

get_key-deep_merge_example :
    get_key "lead" (deep_merge stored change)
    ≡ expected (includes forbidden_keys "lead") (get_key "lead" change) (get_key "lead" stored)
get_key-deep_merge_example = get_key-deep_merge "lead" change stored (refl, (refl, (refl, tt)))

-- `=1,"a"`
abbrev formula : List ℕ
formula = 61 ∷ 49 ∷ 44 ∷ 34 ∷ 97 ∷ 34 ∷ []

field_test : csv_field (some formula) ≡ 34 ∷ 39 ∷ 61 ∷ 49 ∷ 44 ∷ 34 ∷ 34 ∷ 97 ∷ 34 ∷ 34 ∷ 34 ∷ []
unfolding csv_field
field_test = unfold defuse quote_field in refl

csv_test :
    to_csv (some (97 ∷ []) ∷ none ∷ []) ((some (45 ∷ []) ∷ []) ∷ [])
    ≡ 97 ∷ 44 ∷ 13 ∷ 10 ∷ 39 ∷ 45 ∷ []
unfolding to_csv
csv_test = unfold csv_field defuse quote_field join in refl

read_field-csv_field_example :
    (read_field (csv_field (some formula) ++ 44 ∷ 97 ∷ []) ≡ (defuse formula, 44 ∷ 97 ∷ []))
    × (is_formula (defuse formula) ≡ false)
read_field-csv_field_example = read_field-csv_field formula (44 ∷ 97 ∷ []) (refl, refl)

abbrev two : List String
two = "a" ∷ "b" ∷ []
