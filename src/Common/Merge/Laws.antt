-- ===== src/Common/Merge/Laws.antt =====
-- `deepMerge` of src/common/deep-merge.ts, key by key.
use meru_core.Base.{
  String, Option, none, some, ◌≡◌, ◌≢◌, refl, sym, ◌∙◌, Bool, true, false, inl, inr, subst, ◌==◌,
  eq_iff, if◌then◌else◌, includes, Bool-cases, Value, null, bool, num, str, date, arr, obj, Fields,
  done, field, get_key, get_key-set_key_self, get_key-set_key_ne, get_key-delete_key_self,
  get_key-delete_key_ne,
}
use meru_core.Common.Merge.{forbidden_keys, put, deep_merge, merged}

-- An object as it is parsed: no key stands twice.
abbrev pub HasOwnKeys : Fields → Type 0
HasOwnKeys done = Unit
HasOwnKeys (field key v fs) = (get_key key fs ≡ none) × HasOwnKeys fs

get_key-put_self : (k : String) (v : Option Value) (out : Fields) → get_key k (put k v out) ≡ v
get_key-put_self k none out = get_key-delete_key_self k out
get_key-put_self k (some v) out = get_key-set_key_self k v out

get_key-put_ne :
    (k j : String) (v : Option Value) (out : Fields)
    → k ≢ j
    → get_key j (put k v out) ≡ get_key j out
get_key-put_ne k j none out h = get_key-delete_key_ne k j out h
get_key-put_ne k j (some v) out h = get_key-set_key_ne k j v out h

-- The step of the loop at one key.
step_ne :
    (b : Bool) (k j : String) (v : Option Value) (out : Fields)
    → k ≢ j
    → get_key j (if b then out else put k v out) ≡ get_key j out
step_ne true k j v out h = refl
step_ne false k j v out h = get_key-put_ne k j v out h

-- A value of the patch over one of the base: `null` deletes, two objects merge, and anything else
-- replaces.
abbrev pub expected_at : Value → Option Value → Option Value
expected_at null old = none
expected_at (obj inner) (some (obj fs)) = some (obj (deep_merge fs inner))
expected_at v old = some v

merged-expected_at : (v : Value) (old : Option Value) → merged v old ≡ expected_at v old
unfolding deep_merge
merged-expected_at null old = refl
merged-expected_at (obj inner) none = refl
merged-expected_at (obj inner) (some (obj fs)) = refl
merged-expected_at (obj inner) (some null) = refl
merged-expected_at (obj inner) (some (bool b)) = refl
merged-expected_at (obj inner) (some (num n e)) = refl
merged-expected_at (obj inner) (some (str s)) = refl
merged-expected_at (obj inner) (some (date t)) = refl
merged-expected_at (obj inner) (some (arr vs)) = refl
merged-expected_at (bool b) old = refl
merged-expected_at (num n e) old = refl
merged-expected_at (str s) old = refl
merged-expected_at (date t) old = refl
merged-expected_at (arr vs) old = refl

-- What a key holds after a merge: what the base held, if the key is forbidden or not in the patch;
-- otherwise the merge of the two values.
abbrev pub expected : Bool → Option Value → Option Value → Option Value
expected true new old = old
expected false none old = old
expected false (some v) old = expected_at v old

step_self :
    (b : Bool) (k : String) (v : Value) (out : Fields)
    → get_key k (if b then out else put k (merged v (get_key k out)) out)
      ≡ expected b (some v) (get_key k out)
step_self true k v out = refl
step_self false k v out =
    get_key-put_self k (merged v (get_key k out)) out ∙ merged-expected_at v (get_key k out)

unpatched :
    (j : String) (patch out : Fields)
    → get_key j patch ≡ none
    → get_key j (deep_merge out patch) ≡ get_key j out
unfolding deep_merge
unpatched j done out e = refl
unpatched j (field key v patch) out e = elim (Bool-cases (key == j)) [
  | inl same ↦ cc (rw same at e)
  | inr other ↦
      unpatched j patch
        (if includes forbidden_keys key then out else put key (merged v (get_key key out)) out)
        (rw other at e)
      ∙ step_ne (includes forbidden_keys key) key j (merged v (get_key key out)) out
          (λ q. cc ((eq_iff key j).1 q, other))
]

-- After a merge, a key that the patch lacks, and a key that names the prototype chain, hold what the
-- base held, and any other holds the merge of the base's value with the patch's (a `null` deletes it,
-- two objects merge, anything else replaces), if no key stands twice in the patch.
pub get_key-deep_merge :
    (j : String) (patch out : Fields)
    → HasOwnKeys patch
    → get_key j (deep_merge out patch)
      ≡ expected (includes forbidden_keys j) (get_key j patch) (get_key j out)
unfolding deep_merge
get_key-deep_merge j done out h = elim (Bool-cases (includes forbidden_keys j)) [
  | inl f ↦ rw f
  | inr f ↦ rw f
]
get_key-deep_merge j (field key v patch) out h = elim (Bool-cases (key == j)) [
  | inr other ↦
      let apart : key ≢ j = λ q. cc ((eq_iff key j).1 q, other) in
      get_key-deep_merge j patch
        (if includes forbidden_keys key then out else put key (merged v (get_key key out)) out) h.1
      ∙ rw (
        other,
        step_ne (includes forbidden_keys key) key j (merged v (get_key key out)) out apart,
      )
  | inl same ↦
      let eq : key ≡ j = (eq_iff key j).0 same in
      let absent : get_key j patch ≡ none = rw eq at h.0 in
      unpatched j patch
        (if includes forbidden_keys key then out else put key (merged v (get_key key out)) out)
        absent
      ∙ subst
          (λ (k : String).
            get_key j
              (if includes forbidden_keys k then out else put k (merged v (get_key k out)) out)
            ≡ expected (includes forbidden_keys j) (some v) (get_key j out))
          (sym eq) (step_self (includes forbidden_keys j) j v out)
      ∙ rw same
]
