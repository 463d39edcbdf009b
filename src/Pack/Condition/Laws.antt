-- ===== src/Pack/Condition/Laws.antt =====
-- What a condition compiled by src/workflow/services/pack-condition.ts is made of.
use meru_core.Base.{
  String, Option, none, some, List, [], ◌∷◌, ◌≡◌, refl, subst, Bool, true, false, ◌⊎◌, inl, inr,
  arith, In, Bool-cases, Option-cases, Value, bool, Items, Runtime, nat_eq, ◌==◌, eq_iff,
}
use meru_core.Pack.Lexer.{
  begins, trim, strip, scan_first, operators, scan_literal, scan_path, skip_spaces,
}
use meru_core.Pack.Condition.{
  compiled, clause, comparison, membership, elements, Elements, bad_element, member_clause,
  finish_membership, compile_membership, compile_comparison, compile_condition,
}

-- The shapes of a compiled condition: none, one comparison, or one membership.
pub data IsClause : Value → Type 0 where
  always : {v : Value} → v ≡ bool true → IsClause v
  compares :
      {v : Value} (op path : String) (w : Value)
      → In op operators
      → v ≡ clause op path w
      → IsClause v
  member :
      {v : Value} (negated : Bool) (path : String) (ws : Items)
      → v ≡ member_clause negated path ws
      → IsClause v

scan_first-In : (ps : List String) (s p rest : String) → scan_first ps s ≡ some (p, rest) → In p ps
unfolding scan_first
scan_first-In [] s p rest e = cc
scan_first-In (q ∷ ps) s p rest e = elim (Option-cases (strip q s)) [
  | inl missing ↦ inr (scan_first-In ps s p rest (ground arith))
  | inr (r, hit) ↦ inl (ground arith)
]

comparison-IsClause : (text : String) (v : Value) → comparison text ≡ some v → IsClause v
unfolding comparison
comparison-IsClause text v e = elim (Option-cases (scan_path text)) [
  | inl no_path ↦ ground arith
  | inr ((path, rest), has_path) ↦ elim (Option-cases (scan_first operators (skip_spaces rest))) [
    | inl no_op ↦ ground arith
    | inr ((op, more), has_op) ↦ elim (Option-cases (scan_literal (skip_spaces more))) [
      | inl no_literal ↦ ground arith
      | inr ((w, end), has_literal) ↦
          compares op path w (scan_first-In operators (skip_spaces rest) op more has_op)
            (ground arith)
    ]
  ]
]

finish_membership-IsClause :
    (source path : String) (negated : Bool) (es : Elements) (v : Value) (src : String)
    → finish_membership source path negated es ≡ compiled v src
    → IsClause v × (src ≡ source)
finish_membership-IsClause source path negated (bad_element s) v src e = cc
finish_membership-IsClause source path negated (elements ws) v src e =
    (member negated path ws (ground arith), ground arith)

compile_membership-IsClause :
    (source : String) (groups : Option (String × Bool × String)) (v : Value) (src : String)
    → compile_membership source groups ≡ compiled v src
    → IsClause v × (src ≡ source)
unfolding compile_membership
compile_membership-IsClause source none v src e = cc
compile_membership-IsClause source (some (path, negated, list)) v src e =
    finish_membership-IsClause source path negated _ v src e

compile_comparison-IsClause :
    (source text : String) (found : Option Value) (v : Value) (src : String)
    → ((w : Value) → found ≡ some w → IsClause w)
    → compile_comparison source text found ≡ compiled v src
    → IsClause v × (src ≡ source)
compile_comparison-IsClause source text (some w) v src h e =
    (subst IsClause (ground arith) (h w refl), ground arith)
compile_comparison-IsClause source text none v src h e =
    compile_membership-IsClause source (membership text) v src e

-- A condition that is not written as JSON compiles to the constant `true`, to one comparison by an
-- operator of the grammar, or to one membership, and to nothing else; its source is kept, or is blank.
pub compile_condition-IsClause :
    (rt : Runtime) (source : String) (v : Value) (src : String)
    → begins (nat_eq b'{') (trim source) ≡ false
    → compile_condition rt (some source) ≡ compiled v src
    → IsClause v × ((src ≡ source) ⊎ (trim source ≡ ""))
unfolding compile_condition
compile_condition-IsClause rt source v src open_ e = elim (Bool-cases (trim source == "")) [
  | inl blank ↦ (always (ground arith), inr ((eq_iff (trim source) "").0 blank))
  | inr text ↦
      let (c, kept) =
        compile_comparison-IsClause source (trim source) (comparison (trim source)) v src
          (comparison-IsClause (trim source)) (ground arith) in
      (c, inl kept)
]
