-- ===== src/Pack/Condition.antt =====
-- `compileCondition` of src/workflow/services/pack-condition.ts.
pub mod Laws
mod Tests
use Prim.Native.Char.{code}
use Prim.Native.String
use meru_core.Base.{
  ℕ, String, Option, none, some, List, [], ◌∷◌, Bool, true, false, not, ◌==◌, if◌then◌else◌, nat_eq,
  filter, map, split, Value, bool, str, arr, obj, Items, nil, cons, Fields, done, field, Runtime,
}
use meru_core.Pack.Lexer.{
  begins, is_space, skip_spaces, trim, Scan, strip, scan_path, scan_first, operators, scan_literal,
}

pub data Reason : Type 0 where
  not_an_object invalid_json unsupported_syntax : Reason
  not_a_literal : String → Reason

pub data CompileResult : Type 0 where
  compiled : Value → String → CompileResult
  failed : Reason → CompileResult

-- Nothing but white space.
abbrev pub is_blank : String → Bool
is_blank s = skip_spaces s == ""

abbrev pub var_of : String → Value
var_of path = obj (field "var" (str path) done)

-- `{ [op]: [{ var: path }, v] }`
abbrev pub clause : String → String → Value → Value
clause op path v = obj (field op (arr (cons (var_of path) (cons v nil))) done)

ending : String → String → Scan Value → Option Value
ending path op none = none
ending path op (some (v, rest)) = if is_blank rest then some (clause op path v) else none

after_operator : String → Scan String → Option Value
unfolding ending scan_literal
after_operator path none = none
after_operator path (some (op, rest)) = ending path op (scan_literal (skip_spaces rest))

-- `COMPARISON`, with the clause that is built from its groups.
pub comparison : String → Option Value
unfolding after_operator scan_path scan_first skip_spaces
comparison text = elim (scan_path text) [
  | none ↦ none
  | some (path, rest) ↦ after_operator path (scan_first operators (skip_spaces rest))
]

-- `([^\]]*)\]`: the list up to its first bracket, and what follows.
until_bracket : String → Scan String
until_bracket String.[] = none
until_bracket (String.◌∷◌ c s) =
    let rest = until_bracket s in
    if nat_eq (code c) b']'
    then some ("", s)
    else elim rest [ none ↦ none | some (w, r) ↦ some (String.◌∷◌ c w, r) ]

bracketed : Bool → String → String → Option (String × Bool × String)
unfolding until_bracket
bracketed negated path s = elim (strip "[" (skip_spaces s)) [
  | none ↦ none
  | some rest ↦ elim (until_bracket rest) [
    | none ↦ none
    | some (list, r) ↦ if is_blank r then some (path, negated, list) else none
  ]
]

-- `in`, or `not` and `in` with white space between them
keyword_in : String → String → Option (String × Bool × String)
unfolding bracketed
keyword_in path s = elim (strip "in" s) [
  | some rest ↦ bracketed false path rest
  | none ↦ elim (strip "not" s) [
    | none ↦ none
    | some rest ↦
        if begins is_space rest
        then elim (strip "in" (skip_spaces rest)) [ none ↦ none | some r ↦ bracketed true path r ]
        else none
  ]
]

-- The groups of `MEMBERSHIP`.
pub membership : String → Option (String × Bool × String)
unfolding keyword_in
membership text = elim (scan_path text) [
  | none ↦ none
  | some (path, rest) ↦ if begins is_space rest then keyword_in path (skip_spaces rest) else none
]

-- `LITERAL_ONLY`, on a trimmed text
only_literal : Scan Value → Option Value
only_literal none = none
only_literal (some (v, rest)) = if is_blank rest then some v else none

pub data Elements : Type 0 where
  elements : Items → Elements
  bad_element : String → Elements

add_element : Value → Elements → Elements
add_element v (elements vs) = elements (cons v vs)
add_element v (bad_element s) = bad_element s

pub to_elements : List String → Elements
unfolding only_literal add_element
to_elements [] = elements nil
to_elements (s ∷ ss) = elim (only_literal (scan_literal s)) [
  | none ↦ bad_element s
  | some v ↦ add_element v (to_elements ss)
]

-- The elements of the bracket: split at commas, trimmed, the empty ones dropped.
pieces : String → List String
unfolding split trim
pieces list = filter (λ s. not (s == "")) (map trim (split b',' list))

abbrev pub member_clause : Bool → String → Items → Value
member_clause false path vs = clause "in" path (arr vs)
member_clause true path vs = obj (field "!" (clause "in" path (arr vs)) done)

abbrev pub finish_membership : String → String → Bool → Elements → CompileResult
finish_membership source path negated (bad_element s) = failed (not_a_literal s)
finish_membership source path negated (elements vs) =
    compiled (member_clause negated path vs) source

pub compile_membership : String → Option (String × Bool × String) → CompileResult
unfolding to_elements pieces
compile_membership source none = failed unsupported_syntax
compile_membership source (some (path, negated, list)) =
    finish_membership source path negated (to_elements (pieces list))

abbrev pub compile_json : String → Option Value → CompileResult
compile_json source none = failed invalid_json
compile_json source (some (obj fs)) = compiled (obj fs) source
compile_json source (some _) = failed not_an_object

abbrev pub compile_comparison : String → String → Option Value → CompileResult
compile_comparison source text (some v) = compiled v source
compile_comparison source text none = compile_membership source (membership text)

abbrev pub compile_text : Runtime → String → String → CompileResult
compile_text rt source text =
    if begins (nat_eq b'{') text
    then compile_json source (rt.parse_json text)
    else compile_comparison source text (comparison text)

unfoldable pub compile_condition : Runtime → Option String → CompileResult
unfolding compile_membership comparison membership
compile_condition rt none = compiled (bool true) ""
compile_condition rt (some source) =
    if trim source == "" then compiled (bool true) "" else compile_text rt source (trim source)
