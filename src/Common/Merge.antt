-- ===== src/Common/Merge.antt =====
-- `deepMerge` of src/common/deep-merge.ts. A value of the model is never a class instance but a
-- date, and an entry that is absent stands for one that is `undefined`.
pub mod Laws
use meru_core.Base.{
  String, Option, none, some, List, [], ◌∷◌, Bool, ◌==◌, if◌then◌else◌, includes, Value, null, bool,
  num, str, date, arr, obj, Fields, done, field, get_key, set_key, delete_key,
}

abbrev pub forbidden_keys : List String
forbidden_keys = "__proto__" ∷ "constructor" ∷ "prototype" ∷ []

-- `delete out[key]`, or `out[key] = value`
abbrev pub put : String → Option Value → Fields → Fields
put key none out = delete_key key out
put key (some v) out = set_key key v out

unfoldable mutual
  -- The loop over the entries of the patch, `out` the object so far.
  pub deep_merge : Fields → Fields → Fields
  deep_merge out done = out
  deep_merge out (field key value patch) =
      let merged' = merged value (get_key key out) in
      deep_merge (if includes forbidden_keys key then out else put key merged' out) patch

  -- What becomes of an entry: `none` where it is deleted.
  pub merged : Value → Option Value → Option Value
  merged null old = none
  merged (obj inner) old = elim old [
    | none ↦ some (obj inner)
    | some v ↦ elim v [ obj fs ↦ some (obj (deep_merge fs inner)) | _ ↦ some (obj inner) ]
  ]
  merged (bool b) old = some (bool b)
  merged (num n e) old = some (num n e)
  merged (str s) old = some (str s)
  merged (date t) old = some (date t)
  merged (arr vs) old = some (arr vs)
