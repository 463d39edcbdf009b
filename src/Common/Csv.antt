-- ===== src/Common/Csv.antt =====
-- `csvField` and `toCsv` of src/common/csv.ts, over the codes of the texts. A cell is the text that
-- its value has become, and `none` for `null` and `undefined`.
pub mod Laws
use meru_core.Base.{
  ℕ, Option, none, some, List, [], ◌∷◌, ◌++◌, Bool, true, false, ◌||◌, if◌then◌else◌, nat_eq, map,
  any,
}

-- `=`, `+`, `-`, `@`, tab and carriage return
abbrev pub formula_prefixes : List ℕ
formula_prefixes = 61 ∷ 43 ∷ 45 ∷ 64 ∷ 9 ∷ 13 ∷ []

abbrev pub is_formula : List ℕ → Bool
is_formula [] = false
is_formula (c ∷ cs) = any (nat_eq c) formula_prefixes

-- An apostrophe before what a spreadsheet would run.
unfoldable pub defuse : List ℕ → List ℕ
defuse text = if is_formula text then 39 ∷ text else text

-- `/[",\n\r]/`
abbrev pub is_special : ℕ → Bool
is_special c = nat_eq c 34 || (nat_eq c 44 || (nat_eq c 10 || nat_eq c 13))

-- `replace(/"/g, '""')`
abbrev pub double_quotes : List ℕ → List ℕ
double_quotes [] = []
double_quotes (c ∷ cs) =
    let rest = double_quotes cs in if nat_eq c 34 then 34 ∷ 34 ∷ rest else c ∷ rest

unfoldable pub quote_field : List ℕ → List ℕ
quote_field text = if any is_special text then 34 ∷ double_quotes text ++ 34 ∷ [] else text

unfoldable pub csv_field : Option (List ℕ) → List ℕ
csv_field none = []
csv_field (some text) = quote_field (defuse text)

-- `join`
unfoldable pub join : List ℕ → List (List ℕ) → List ℕ
join separator [] = []
join separator (t ∷ []) = t
join separator (t ∷ u ∷ ts) = t ++ separator ++ join separator (u ∷ ts)

unfoldable pub to_csv : List (Option (List ℕ)) → List (List (Option (List ℕ))) → List ℕ
to_csv headers rows =
    join (13 ∷ 10 ∷ []) (map (λ row. join (44 ∷ []) (map csv_field row)) (headers ∷ rows))
