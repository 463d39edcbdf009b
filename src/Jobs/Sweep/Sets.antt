-- ===== src/Jobs/Sweep/Sets.antt =====
-- The sets of tenants of src/core/tenancy/tenant-bound-sweep.ts.
use meru_core.Base.{
  suc, ◌≤◌, String, List, [], ◌∷◌, ◌++◌, ◌≡◌, ◌≢◌, ◌↔◌, refl, true, false, ◌⊎◌, inl, inr, arith,
  eq_iff, ◌==◌, length, includes, Bool-cases, if◌then◌else◌,
}
use meru_core.Jobs.Sweep.{add}

abbrev pub HasNoRepeat : List String → Type 0
HasNoRepeat [] = Unit
HasNoRepeat (x ∷ xs) = (includes xs x ≡ false) × HasNoRepeat xs

-- The list without its first `x`.
abbrev remove : String → List String → List String
remove x [] = []
remove x (y ∷ ys) = let rest = remove x ys in if x == y then ys else y ∷ rest

length-remove :
    (x : String) (ys : List String) → includes ys x ≡ true → length ys ≡ suc (length (remove x ys))
length-remove x [] e = cc
length-remove x (y ∷ ys) e = ground (arith, eq_iff x y, eq_iff y x, length-remove x ys)

includes-remove :
    (x : String) (ys : List String) (z : String)
    → z ≢ x
    → includes ys z ≡ true
    → includes (remove x ys) z ≡ true
includes-remove x [] z h e = e
includes-remove x (y ∷ ys) z h e = ground (arith, eq_iff x y, eq_iff y z, includes-remove x ys z)

abbrev pub IsWithin : List String → List String → Type 0
IsWithin xs ys = (z : String) → includes xs z ≡ true → includes ys z ≡ true

pub within_length : (xs ys : List String) → HasNoRepeat xs → IsWithin xs ys → length xs ≤ length ys
within_length [] ys s h = omega arith
within_length (x ∷ xs) ys s h =
    let there : includes ys x ≡ true = h x (ground (arith, eq_iff x x)) in
    let rest = within_length xs (remove x ys) s.1 (λ z e.
      includes-remove x ys z (λ same. absurd (ground (arith, s.0, e, same)))
        (h z (ground (arith, e)))) in
    omega (arith, rest, length-remove x ys there)

includes-append :
    (xs : List String) (y z : String)
    → (includes (xs ++ y ∷ []) z ≡ true) ↔ ((includes xs z ≡ true) ⊎ (y ≡ z))
includes-append [] y z = ground (arith, eq_iff y z)
includes-append (x ∷ xs) y z = grind (arith, eq_iff x z, includes-append xs y z)

pub includes-add :
    (xs : List String) (y z : String)
    → (includes (add xs y) z ≡ true) ↔ ((includes xs z ≡ true) ⊎ (y ≡ z))
includes-add xs y z = elim (Bool-cases (includes xs y)) [
  | inl e ↦ rw e (λ h. inl h, λ w. elim w [ inl h ↦ h | inr same ↦ rw (← same) e ])
  | inr e ↦ rw e (includes-append xs y z)
]

HasNoRepeat-append :
    (xs : List String) (y : String)
    → HasNoRepeat xs
    → includes xs y ≡ false
    → HasNoRepeat (xs ++ y ∷ [])
HasNoRepeat-append [] y s h = (refl, tt)
HasNoRepeat-append (x ∷ xs) y s h = (
  ground (arith, eq_iff x y, eq_iff y x, includes-append xs y x, s.0, h),
  HasNoRepeat-append xs y s.1 (ground (arith, h)),
)

pub add-HasNoRepeat : (xs : List String) (y : String) → HasNoRepeat xs → HasNoRepeat (add xs y)
add-HasNoRepeat xs y s = elim (Bool-cases (includes xs y)) [
  | inl e ↦ rw e s
  | inr e ↦ rw e (HasNoRepeat-append xs y s e)
]
