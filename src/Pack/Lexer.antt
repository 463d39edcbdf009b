-- ===== src/Pack/Lexer.antt =====
-- The regular expressions of src/workflow/services/pack-condition.ts as functions on a text. None of
-- them can match a text in two ways, so each is one scan from left to right.
use Prim.Native.Char.{Char, code}
use meru_core.Base.{
  ℕ, ◌+◌, ◌-◌, ◌*◌, String, Option, none, some, List, [], ◌∷◌, Bool, true, false, not, ◌&&◌, ◌||◌,
  ◌==◌, if◌then◌else◌, nat_eq, leb, is_digit, any, ℤ, pos, negate, Value, null, bool, num, str,
}

-- The white space of `\s` and of `trim`.
abbrev pub is_space : ℕ → Bool
is_space c =
    nat_eq c 32
    || (leb 9 c && leb c 13)
    || (any (nat_eq c) (160 ∷ 5760 ∷ 8232 ∷ 8233 ∷ 8239 ∷ 8287 ∷ 12288 ∷ 65279 ∷ [])
        || (leb 8192 c && leb c 8202))

-- `[A-Za-z_]` and `\w`
abbrev pub is_letter : ℕ → Bool
is_letter c = (leb b'A' c && leb c b'Z') || ((leb b'a' c && leb c b'z') || nat_eq c b'_')

abbrev pub is_word : ℕ → Bool
is_word c = is_letter c || is_digit c

unfoldable pub skip_spaces : String → String
skip_spaces String.[] = ""
skip_spaces (String.◌∷◌ c s) =
    let rest = skip_spaces s in if is_space (code c) then rest else String.◌∷◌ c s

trim_right : String → String
trim_right String.[] = ""
trim_right (String.◌∷◌ c s) =
    let rest = trim_right s in if is_space (code c) && (rest == "") then "" else String.◌∷◌ c rest

-- `text.trim()`
unfoldable pub trim : String → String
unfolding trim_right skip_spaces
trim s = trim_right (skip_spaces s)

-- A scan: what is read, and what follows it.
abbrev pub Scan : Type 0 → Type 0
Scan A = Option (A × String)

abbrev pub begins : (ℕ → Bool) → String → Bool
begins p String.[] = false
begins p (String.◌∷◌ c s) = p (code c)

-- `p`, if the text begins with it
unfoldable pub strip : String → String → Option String
strip String.[] s = some s
strip (String.◌∷◌ c p) String.[] = none
strip (String.◌∷◌ c p) (String.◌∷◌ d s) =
    let rest = strip p s in if nat_eq (code c) (code d) then rest else none

-- `\w*(?:\.[A-Za-z_]\w*)*`
unfoldable pub path_rest : String → String × String
path_rest String.[] = ("", "")
path_rest (String.◌∷◌ c s) =
    let (w, rest) = path_rest s in
    if is_word (code c) || (nat_eq (code c) b'.' && begins is_letter s)
    then (String.◌∷◌ c w, rest)
    else ("", String.◌∷◌ c s)

-- A dotted path of identifiers.
unfoldable pub scan_path : String → Scan String
unfolding path_rest
scan_path s = if begins is_letter s then some (path_rest s) else none

-- The first of some texts that the input begins with, in their order.
unfoldable pub scan_first : List String → String → Scan String
unfolding strip
scan_first [] s = none
scan_first (p ∷ ps) s = elim (strip p s) [ some rest ↦ some (p, rest) | none ↦ scan_first ps s ]

abbrev pub operators : List String
operators = "===" ∷ "!==" ∷ "==" ∷ "!=" ∷ ">=" ∷ "<=" ∷ ">" ∷ "<" ∷ []

-- What `.` does not match.
abbrev is_line_end : ℕ → Bool
is_line_end c = any (nat_eq c) (10 ∷ 13 ∷ 8232 ∷ 8233 ∷ [])

prepend : Char → Scan String → Scan String
prepend c none = none
prepend c (some (w, rest)) = some (String.◌∷◌ c w, rest)

-- The inside of a quoted text up to its quote, with the escapes taken out.
unfoldable pub scan_quoted : ℕ → Bool → String → Scan String
unfolding prepend
scan_quoted quote escaped String.[] = none
scan_quoted quote escaped (String.◌∷◌ c s) =
    let rest = scan_quoted quote (not escaped && nat_eq (code c) 92) s in
    if escaped
    then (if is_line_end (code c) then none else prepend c rest)
    else if nat_eq (code c) quote
    then some ("", s)
    else if nat_eq (code c) 92
    then rest
    else prepend c rest

-- A run of digits added to a value, with their count.
scan_digits : ℕ → ℕ → String → ℕ × ℕ × String
scan_digits value count String.[] = (value, count, "")
scan_digits value count (String.◌∷◌ c s) =
    let rest = scan_digits (value * 10 + (code c - b'0')) (count + 1) s in
    if is_digit (code c) then rest else (value, count, String.◌∷◌ c s)

fraction : ℕ → String → ℕ × ℕ × String
unfolding scan_digits
fraction value String.[] = (value, 0, "")
fraction value (String.◌∷◌ c s) =
    if nat_eq (code c) b'.' && begins is_digit s
    then scan_digits value 0 s
    else (value, 0, String.◌∷◌ c s)

signed : Bool → ℕ → ℤ
signed false n = pos n
signed true n = negate (pos n)

scan_unsigned : Bool → String → Scan Value
unfolding fraction signed
scan_unsigned minus s =
    if begins is_digit s
    then (let (whole, count, rest) = scan_digits 0 0 s in
        let (value, places, rest') = fraction whole rest in
        some (num (signed minus value) places, rest'))
    else none

-- `-?\d+(?:\.\d+)?`
unfoldable pub scan_number : String → Scan Value
unfolding scan_unsigned
scan_number s = elim (strip "-" s) [
  | some rest ↦ scan_unsigned true rest
  | none ↦ scan_unsigned false s
]

abbrev as_text : Scan String → Scan Value
as_text none = none
as_text (some (w, rest)) = some (str w, rest)

scan_keyword : List (String × Value) → String → Scan Value
scan_keyword [] s = none
scan_keyword ((word, v) ∷ more) s = elim (strip word s) [
  | some rest ↦ some (v, rest)
  | none ↦ scan_keyword more s
]

abbrev keywords : List (String × Value)
keywords = ("true", bool true) ∷ ("false", bool false) ∷ ("null", null) ∷ []

-- A literal, with the value that `literal` gives it.
unfoldable pub scan_literal : String → Scan Value
unfolding scan_keyword scan_number scan_quoted strip
scan_literal s = elim (strip "'" s) [
  | some rest ↦ as_text (scan_quoted b'\'' false rest)
  | none ↦ elim (strip "\"" s) [
    | some rest ↦ as_text (scan_quoted b'"' false rest)
    | none ↦ elim (scan_number s) [ some found ↦ some found | none ↦ scan_keyword keywords s ]
  ]
]
