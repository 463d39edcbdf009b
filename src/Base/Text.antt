-- ===== src/Base/Text.antt =====
-- Texts read character by character: splitting, whitespace, numerals.
use Prim.Native.Nat.{ℕ, ◌+◌, ◌-◌, ◌*◌}
use Prim.Native.Char.{Char, code}
use Prim.Native.String
use Prim.Native.String.{String}
use mathlib.Core.Bool.{Bool, ◌&&◌}
use mathlib.Core.Option.{Option, none, some}
use mathlib.Core.List.{List, [], ◌∷◌}
use meru_core.Base.Tests.{nat_eq, leb, if◌then◌else◌}

-- `s + t`
infixl 65 ◌+++◌
abbrev pub ◌+++◌ : String → String → String
s +++ t = String.◌++◌ s t

abbrev pub codes : String → List ℕ
codes String.[] = []
codes (String.◌∷◌ c s) = code c ∷ codes s

abbrev pub is_digit : ℕ → Bool
is_digit c = leb b'0' c && leb c b'9'

abbrev push : String → Char → String
push s c = String.◌++◌ s (String.◌∷◌ c String.[])

split_from : ℕ → String → String → List String
split_from at cur String.[] = cur ∷ []
split_from at cur (String.◌∷◌ c s) =
    let closed = cur ∷ split_from at "" s in
    let longer = split_from at (push cur c) s in if nat_eq (code c) at then closed else longer

-- `text.split(c)` at the character of code `at`.
unfoldable pub split : ℕ → String → List String
unfolding split_from
split at s = split_from at "" s

digits_value : ℕ → List ℕ → Option ℕ
digits_value n [] = some n
digits_value n (c ∷ cs) =
    let rest = digits_value (n * 10 + (c - b'0')) cs in if is_digit c then rest else none

index_value : List ℕ → Option ℕ
index_value [] = none
index_value (c ∷ []) = if is_digit c then some (c - b'0') else none
index_value (c ∷ cs) = if is_digit c && leb b'1' c then digits_value (c - b'0') cs else none

-- The array index that a property name denotes: a numeral with no leading zero.
unfoldable pub array_index : String → Option ℕ
unfolding index_value digits_value
array_index s = index_value (codes s)
