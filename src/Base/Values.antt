-- ===== src/Base/Values.antt =====
-- Values as a handler receives them: JSON, and dates by their milliseconds (`none` is an invalid
-- date). A number is an exact decimal, its mantissa with the count of its decimal places. `undefined`
-- is the `none` of an `Option Value`. An object is its own properties, in order; what it inherits
-- from its prototype is not modelled.
use Prim.Native.Nat.{ℕ, ◌+◌, ◌-◌, ◌*◌, ◌^◌}
use Prim.Native.String.{String}
use mathlib.Core.Bool.{Bool, true, false}
use mathlib.Core.Option.{Option, none, some}
use mathlib.Core.List.{List, [], ◌∷◌}
use text.Mathlib.Text.{◌==◌}
use meru_core.Base.Tests.{nat_eq, if◌then◌else◌}
use meru_core.Base.Int.{ℤ, pos, negsuc}
use mathlib.Core.Path.{◌≡◌, refl}
use mathlib.Core.Logic.{◌≢◌}
use native.Mathlib.Omega.{arith}
use text.Mathlib.TextEquality.{eq_iff}

mutual
  pub data Value : Type 0 where
    null : Value
    bool : Bool → Value
    num : ℤ → ℕ → Value
    str : String → Value
    date : Option ℤ → Value
    arr : Items → Value
    obj : Fields → Value

  pub data Items : Type 0 where
    nil : Items
    cons : Value → Items → Items

  pub data Fields : Type 0 where
    done : Fields
    field : String → Value → Fields → Fields

-- `o[key]`, by the first entry of that name.
abbrev pub get_key : String → Fields → Option Value
get_key k done = none
get_key k (field j v fs) = let rest = get_key k fs in if j == k then some v else rest

-- `o[key] = v`: an entry keeps its place, a new one stands last.
abbrev pub set_key : String → Value → Fields → Fields
set_key k v done = field k v done
set_key k v (field j w fs) =
    let rest = set_key k v fs in if j == k then field k v fs else field j w rest

-- `delete o[key]`
abbrev pub delete_key : String → Fields → Fields
delete_key k done = done
delete_key k (field j v fs) = let rest = delete_key k fs in if j == k then rest else field j v rest

-- `{ ...base, ...more }`
abbrev pub spread : Fields → Fields → Fields
spread base done = base
spread base (field k v fs) = spread (set_key k v base) fs

abbrev pub items : Items → List Value
items nil = []
items (cons v vs) = v ∷ items vs

abbrev pub is_null : Value → Bool
is_null null = true
is_null _ = false

-- `Boolean(v)`
abbrev pub truthy : Value → Bool
truthy null = false
truthy (bool b) = b
truthy (num (pos n) e) = if nat_eq n 0 then false else true
truthy (num (negsuc n) e) = true
truthy (str s) = if s == "" then false else true
truthy (date t) = true
truthy (arr vs) = true
truthy (obj fs) = true

abbrev scale : ℤ → ℕ → ℤ
scale (pos n) k = pos (n * 10 ^ k)
scale (negsuc n) k = negsuc ((n + 1) * 10 ^ k - 1)

abbrev same_ℤ : ℤ → ℤ → Bool
same_ℤ (pos a) (pos b) = nat_eq a b
same_ℤ (negsuc a) (negsuc b) = nat_eq a b
same_ℤ _ _ = false

abbrev same_bool : Bool → Bool → Bool
same_bool true b = b
same_bool false true = false
same_bool false false = true

abbrev strict_values : Value → Value → Bool
strict_values null null = true
strict_values (bool a) (bool b) = same_bool a b
strict_values (num a i) (num b j) = same_ℤ (scale a j) (scale b i)
strict_values (str s) (str t) = s == t
strict_values _ _ = false

-- `a === b` of values read from two rows: two objects are never one reference.
abbrev pub strict_eq : Option Value → Option Value → Bool
strict_eq none none = true
strict_eq (some a) (some b) = strict_values a b
strict_eq _ _ = false

pub get_key-set_key_self :
    (k : String) (v : Value) (fs : Fields) → get_key k (set_key k v fs) ≡ some v
get_key-set_key_self k v done = ground (arith, eq_iff k k)
get_key-set_key_self k v (field j w fs) =
    ground (arith, eq_iff k k, eq_iff j k, get_key-set_key_self k v fs)

pub get_key-set_key_ne :
    (k j : String) (v : Value) (fs : Fields) → k ≢ j → get_key j (set_key k v fs) ≡ get_key j fs
get_key-set_key_ne k j v done h = ground (arith, eq_iff k j)
get_key-set_key_ne k j v (field i w fs) h =
    ground (arith, eq_iff k j, eq_iff i j, eq_iff i k, get_key-set_key_ne k j v fs h)

pub get_key-delete_key_self : (k : String) (fs : Fields) → get_key k (delete_key k fs) ≡ none
get_key-delete_key_self k done = refl
get_key-delete_key_self k (field j w fs) = ground (arith, eq_iff j k, get_key-delete_key_self k fs)

pub get_key-delete_key_ne :
    (k j : String) (fs : Fields) → k ≢ j → get_key j (delete_key k fs) ≡ get_key j fs
get_key-delete_key_ne k j done h = refl
get_key-delete_key_ne k j (field i w fs) h =
    ground (arith, eq_iff i k, eq_iff i j, eq_iff k j, get_key-delete_key_ne k j fs h)
