-- ===== src/Pack/Condition/Tests.antt =====
-- Conditions of the shipped packs, and their refusals.
use meru_core.Base.{String, none, some, ◌≡◌, refl, num, str, nil, cons, negsuc, Runtime}
use meru_core.Base.{true, false}
use meru_core.Pack.Condition.{
  compile_condition, compiled, failed, unsupported_syntax, not_a_literal, clause, member_clause,
}

abbrev silent : Runtime
silent = record {
  apply_logic = λ r d. none;
  parse_json = λ s. none;
  parse_date = λ s. none;
  to_iso = λ t. "";
  greater = λ a b. false;
  text_includes = λ s v. false;
  trim_lower = λ s. s;
}

comparison_test :
    compile_condition silent (some "screening.riskLevel !== 'critical'")
    ≡ compiled
        (clause "!==" "screening.riskLevel" (str "critical"))
        "screening.riskLevel !== 'critical'"
unfolding compile_condition
comparison_test = refl

number_test :
    compile_condition silent (some "a.b>=-12.50 ")
    ≡ compiled (clause ">=" "a.b" (num (negsuc 1249) 2)) "a.b>=-12.50 "
unfolding compile_condition
number_test = refl

membership_test :
    compile_condition silent (some "matter.subclass not in ['500', \"485\",]")
    ≡ compiled
        (member_clause true "matter.subclass" (cons (str "500") (cons (str "485") nil)))
        "matter.subclass not in ['500', \"485\",]"
unfolding compile_condition
membership_test = refl

escape_test :
    compile_condition silent (some "x == 'it\\'s'")
    ≡ compiled (clause "==" "x" (str "it's")) "x == 'it\\'s'"
unfolding compile_condition
escape_test = refl

bad_element_test : compile_condition silent (some "x in [1, y]") ≡ failed (not_a_literal "y")
unfolding compile_condition
bad_element_test = refl

unsupported_test : compile_condition silent (some "x === 1 && y === 2") ≡ failed unsupported_syntax
unfolding compile_condition
unsupported_test = refl

abbrev risky : String
risky = "screening.riskLevel !== 'critical'"
