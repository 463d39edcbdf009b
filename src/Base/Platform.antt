-- ===== src/Base/Platform.antt =====
-- What the code relies on and this library does not implement: the package json-logic-js, and
-- coercions and parsers of the JavaScript runtime, all of them parameters.
use Prim.Native.String.{String}
use mathlib.Core.Bool.{Bool}
use mathlib.Core.Option.{Option}
use meru_core.Base.Int.{ℤ}
use meru_core.Base.Values.{Value}

pub record Runtime : Type 0 where
  -- `jsonLogic.apply(rule, data)`; `none` when it throws
  pub apply_logic : Value → Value → Option Value
  -- `JSON.parse`; `none` when it throws
  pub parse_json : String → Option Value
  -- `new Date(text).getTime()`; `none` for NaN
  pub parse_date : String → Option ℤ
  -- `toISOString`
  pub to_iso : ℤ → String
  -- `a > b` between values of any types
  pub greater : Option Value → Option Value → Bool
  -- `text.includes(value)`, which coerces its argument to a text
  pub text_includes : String → Option Value → Bool
  -- `text.trim().toLowerCase()`
  pub trim_lower : String → String
