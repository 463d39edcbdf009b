-- ===== src/Common/Csv/Laws.antt =====
-- A reader of RFC 4180 for the fields of src/common/csv.ts.
use meru_core.Base.{
  ℕ, ◌≡◌, refl, ap, ◌∙◌, some, List, [], ◌∷◌, ◌++◌, Bool, true, false, inl, inr, arith,
  if◌then◌else◌, nat_eq, any, Bool-cases,
}
use meru_core.Common.Csv.{is_formula, defuse, is_special, double_quotes, quote_field, csv_field}

-- The reader: a field in quotes, a doubled quote being one, or a plain field up to a separator.
abbrev pub keep : ℕ → List ℕ × List ℕ → List ℕ × List ℕ
keep c (text, rest) = (c ∷ text, rest)

abbrev pub read_quoted : List ℕ → List ℕ × List ℕ
read_quoted [] = ([], [])
read_quoted (c ∷ []) = if nat_eq c 34 then ([], []) else (c ∷ [], [])
read_quoted (c ∷ d ∷ cs) =
    let doubled = read_quoted cs in
    let next = read_quoted (d ∷ cs) in
    if nat_eq c 34 then (if nat_eq d 34 then keep 34 doubled else ([], d ∷ cs)) else keep c next

abbrev pub read_plain : List ℕ → List ℕ × List ℕ
read_plain [] = ([], [])
read_plain (c ∷ cs) = let next = read_plain cs in if is_special c then ([], c ∷ cs) else keep c next

abbrev pub read_field : List ℕ → List ℕ × List ℕ
read_field [] = ([], [])
read_field (c ∷ cs) = if nat_eq c 34 then read_quoted cs else read_plain (c ∷ cs)

-- What may follow a field: nothing, a comma or the end of a line.
abbrev pub IsAfterField : List ℕ → Type 0
IsAfterField [] = Unit
IsAfterField (c ∷ cs) = (is_special c ≡ true) × (nat_eq c 34 ≡ false)

read_quoted_other :
    (c : ℕ) (cs : List ℕ) → nat_eq c 34 ≡ false → read_quoted (c ∷ cs) ≡ keep c (read_quoted cs)
read_quoted_other c [] e = rw e
read_quoted_other c (d ∷ cs) e = rw e

quoted :
    (text rest : List ℕ)
    → IsAfterField rest
    → read_quoted (double_quotes text ++ 34 ∷ rest) ≡ (text, rest)
quoted [] [] h = refl
quoted [] (c ∷ rest) h = rw h.1
quoted (c ∷ text) rest h = elim (Bool-cases (nat_eq c 34)) [
  | inl quote ↦
      let same : 34 ≡ c = ground arith in
      rw quote (ap (keep 34) (quoted text rest h) ∙ ap (λ d. (d ∷ text, rest)) same)
  | inr other ↦ rw other (
      read_quoted_other c (double_quotes text ++ 34 ∷ rest) other
      ∙ ap (keep c) (quoted text rest h))
]

plain :
    (text rest : List ℕ)
    → IsAfterField rest
    → any is_special text ≡ false
    → read_plain (text ++ rest) ≡ (text, rest)
plain [] [] h k = refl
plain [] (c ∷ rest) h k = rw h.0
plain (c ∷ text) rest h k = elim (Bool-cases (is_special c)) [
  | inl special ↦ cc (rw special at k)
  | inr other ↦ rw other (ap (keep c) (plain text rest h (rw other at k)))
]

append_assoc : (xs ys zs : List ℕ) → (xs ++ ys) ++ zs ≡ xs ++ (ys ++ zs)
append_assoc [] ys zs = refl
append_assoc (x ∷ xs) ys zs = ap (λ l. x ∷ l) (append_assoc xs ys zs)

if_else : {A : Type 0} (b : Bool) (x y : A) → b ≡ false → (if b then x else y) ≡ y
if_else true x y e = cc e
if_else false x y e = refl

read_plain_field :
    (text rest : List ℕ)
    → IsAfterField rest
    → any is_special text ≡ false
    → read_field (text ++ rest) ≡ (text, rest)
read_plain_field [] [] h k = refl
read_plain_field [] (c ∷ rest) h k = rw (h.0, h.1)
read_plain_field (c ∷ text) rest h k =
    let other : nat_eq c 34 ≡ false = ground arith in
    if_else (nat_eq c 34) (read_quoted (text ++ rest)) (read_plain (c ∷ text ++ rest)) other
    ∙ plain (c ∷ text) rest h k

defuse-is_formula : (text : List ℕ) → is_formula (defuse text) ≡ false
unfolding defuse
defuse-is_formula text = elim (Bool-cases (is_formula text)) [ inl h ↦ rw h | inr h ↦ rw (h, h) ]

read_quote_field :
    (text rest : List ℕ) → IsAfterField rest → read_field (quote_field text ++ rest) ≡ (text, rest)
unfolding quote_field
read_quote_field text rest h = elim (Bool-cases (any is_special text)) [
  | inl special ↦
      rw special
        (ap read_quoted (append_assoc (double_quotes text) (34 ∷ []) rest) ∙ quoted text rest h)
  | inr none_special ↦ rw none_special (read_plain_field text rest h none_special)
]

-- A reader of RFC 4180 reads the field of a text up to what follows it, and gets the text back, with
-- an apostrophe before it where it would be a formula; what it gets is never one.
pub read_field-csv_field :
    (text rest : List ℕ)
    → IsAfterField rest
    → (read_field (csv_field (some text) ++ rest) ≡ (defuse text, rest))
      × (is_formula (defuse text) ≡ false)
unfolding csv_field
read_field-csv_field text rest h = (read_quote_field (defuse text) rest h, defuse-is_formula text)
