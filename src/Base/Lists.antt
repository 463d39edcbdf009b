-- ===== src/Base/Lists.antt =====
-- Arrays of the source as lists: `length`, `some`, `every`, `filter`, `find`, `includes`.
use Prim.Native.Nat.{ℕ, suc, ◌+◌}
use Prim.Native.String.{String}
use mathlib.Core.Path.{◌≡◌, refl, sym, subst, ap, ◌∙◌}
use mathlib.Core.Logic.{◌↔◌, ◌⊎◌, inl, inr}
use mathlib.Core.Bool.{Bool, true, false, ◌&&◌, ◌||◌, false≢true}
use mathlib.Core.Option.{Option, none, some}
use mathlib.Core.List.{List, [], ◌∷◌, ◌++◌, map}
use native.Mathlib.Omega.{arith}
use text.Mathlib.Text.{◌==◌}
use text.Mathlib.TextEquality.{eq_iff}
use meru_core.Base.Tests.{if◌then◌else◌, Bool-cases}

module _ {ℓ} {A : Type ℓ} where
  abbrev pub length : List A → ℕ
  length [] = 0
  length (x ∷ xs) = suc (length xs)

  abbrev pub is_empty : List A → Bool
  is_empty [] = true
  is_empty (x ∷ xs) = false

  abbrev pub any : (A → Bool) → List A → Bool
  any p [] = false
  any p (x ∷ xs) = p x || any p xs

  abbrev pub all : (A → Bool) → List A → Bool
  all p [] = true
  all p (x ∷ xs) = p x && all p xs

  abbrev pub filter : (A → Bool) → List A → List A
  filter p [] = []
  filter p (x ∷ xs) = let rest = filter p xs in if p x then x ∷ rest else rest

  abbrev pub find? : (A → Bool) → List A → Option A
  find? p [] = none
  find? p (x ∷ xs) = let rest = find? p xs in if p x then some x else rest

abbrev pub includes : List String → String → Bool
includes [] a = false
includes (x ∷ xs) a = x == a || includes xs a

-- `x` stands in the list.
abbrev pub In : {A : Type 0} → A → List A → Type 0
In a [] = ⊥
In a (x ∷ xs) = (a ≡ x) ⊎ In a xs

abbrev pub All {ℓ κ} : {A : Type ℓ} → (A → Type κ) → List A → Type κ
All P [] = Unit
All P (x ∷ xs) = P x × All P xs

pub All-append {ℓ κ} :
    {A : Type ℓ} (P : A → Type κ) (xs ys : List A) → All P xs → All P ys → All P (xs ++ ys)
All-append P [] ys hx hy = hy
All-append P (x ∷ xs) ys hx hy = (hx.0, All-append P xs ys hx.1 hy)

pub All-map {ℓ κ} :
    {A B : Type ℓ} (P : B → Type κ) (f : A → B) (xs : List A)
    → All (λ x. P (f x)) xs
    → All P (map f xs)
All-map P f [] h = tt
All-map P f (x ∷ xs) h = (h.0, All-map P f xs h.1)

pub All-imp {ℓ κ μ} :
    {A : Type ℓ} {P : A → Type κ} {Q : A → Type μ}
    → ((x : A) → P x → Q x)
    → (xs : List A) → All P xs
    → All Q xs
All-imp f [] h = tt
All-imp f (x ∷ xs) h = (f x h.0, All-imp f xs h.1)

pub All-of_In : {A : Type 0} {P : A → Type 0} (xs : List A) → ((x : A) → In x xs → P x) → All P xs
All-of_In [] h = tt
All-of_In (x ∷ xs) h = (h x (inl refl), All-of_In xs (λ y m. h y (inr m)))

pub In_of_All : {A : Type 0} (P : A → Type 0) (xs : List A) → All P xs → (x : A) → In x xs → P x
In_of_All P [] h x m = absurd m
In_of_All P (y ∷ xs) h x (inl e) = subst P (sym e) h.0
In_of_All P (y ∷ xs) h x (inr m) = In_of_All P xs h.1 x m

pub includes_iff : (xs : List String) (a : String) → (includes xs a ≡ true) ↔ In a xs
includes_iff [] a = (λ e. absurd (false≢true e), λ m. absurd m)
includes_iff (x ∷ xs) a = grind (arith, eq_iff x a, includes_iff xs a)

module _ {A : Type 0} (p : A → Bool) where
  pub any_sound : (xs : List A) → any p xs ≡ true → (a : A) × In a xs × (p a ≡ true)
  any_sound [] e = absurd (false≢true e)
  any_sound (x ∷ xs) e = elim (Bool-cases (p x)) [
    | inl h ↦ (x, inl refl, h)
    | inr h ↦ let (a, m, q) = any_sound xs (rw h at e) in (a, inr m, q)
  ]

  pub any_complete : (xs : List A) (a : A) → In a xs → p a ≡ true → any p xs ≡ true
  any_complete [] a m q = absurd m
  any_complete (x ∷ xs) a (inl e) q = rw (← e) (rw q)
  any_complete (x ∷ xs) a (inr m) q = ground (arith, any_complete xs a m q)

  pub all_iff : (xs : List A) → (all p xs ≡ true) ↔ All (λ a. p a ≡ true) xs
  all_iff [] = (λ _. tt, λ _. refl)
  all_iff (x ∷ xs) = grind (arith, all_iff xs)

  pub In-filter_iff : (xs : List A) (a : A) → In a (filter p xs) ↔ (In a xs × (p a ≡ true))
  In-filter_iff [] a = (λ m. absurd m, λ w. absurd w.0)
  In-filter_iff (x ∷ xs) a = (
    λ m. elim (Bool-cases (p x)) [
      | inl h ↦ elim (rw h at m) [
        | inl e ↦ (inl e, rw e h)
        | inr n ↦ let (k, q) = (In-filter_iff xs a).0 n in (inr k, q)
      ]
      | inr h ↦ let (k, q) = (In-filter_iff xs a).0 (rw h at m) in (inr k, q)
    ],
    λ w. elim (w.0) [
      | inl e ↦ rw (ap p (sym e) ∙ w.1) (inl e)
      | inr k ↦ elim (Bool-cases (p x)) [
        | inl h ↦ rw h (inr ((In-filter_iff xs a).1 (k, w.1)))
        | inr h ↦ rw h ((In-filter_iff xs a).1 (k, w.1))
      ]
    ],
  )

  pub find?-eq-some : (xs : List A) (a : A) → find? p xs ≡ some a → In a xs × (p a ≡ true)
  find?-eq-some [] a e = cc
  find?-eq-some (x ∷ xs) a e = elim (Bool-cases (p x)) [
    | inl h ↦ ground arith
    | inr h ↦ let (m, q) = find?-eq-some xs a (ground arith) in (inr m, q)
  ]

  pub find?-eq-none : (xs : List A) → find? p xs ≡ none → All (λ a. p a ≡ false) xs
  find?-eq-none [] e = tt
  find?-eq-none (x ∷ xs) e = ground (arith, find?-eq-none xs)

module _ {ℓ} {A : Type ℓ} where
  pub length-append : (xs ys : List A) → length (xs ++ ys) ≡ length xs + length ys
  length-append [] ys = omega arith
  length-append (x ∷ xs) ys = omega (arith, length-append xs ys)

module _ {A : Type 0} where
  pub In-append_left : (xs ys : List A) (a : A) → In a xs → In a (xs ++ ys)
  In-append_left [] ys a m = absurd m
  In-append_left (x ∷ xs) ys a (inl e) = inl e
  In-append_left (x ∷ xs) ys a (inr m) = inr (In-append_left xs ys a m)

  pub In-append_right : (xs ys : List A) (a : A) → In a ys → In a (xs ++ ys)
  In-append_right [] ys a m = m
  In-append_right (x ∷ xs) ys a m = inr (In-append_right xs ys a m)

  pub In-append_cases : (xs ys : List A) (a : A) → In a (xs ++ ys) → In a xs ⊎ In a ys
  In-append_cases [] ys a m = inr m
  In-append_cases (x ∷ xs) ys a (inl e) = inl (inl e)
  In-append_cases (x ∷ xs) ys a (inr m) = elim (In-append_cases xs ys a m) [
    | inl n ↦ inl (inr n)
    | inr n ↦ inr n
  ]

  pub In-map : {B : Type 0} (f : A → B) (xs : List A) (a : A) → In a xs → In (f a) (map f xs)
  In-map f [] a m = absurd m
  In-map f (x ∷ xs) a (inl e) = inl (ap f e)
  In-map f (x ∷ xs) a (inr m) = inr (In-map f xs a m)

  pub In-of_map :
      {B : Type 0} (f : A → B) (xs : List A) (b : B)
      → In b (map f xs)
      → (a : A) × In a xs × (b ≡ f a)
  In-of_map f [] b m = absurd m
  In-of_map f (x ∷ xs) b (inl e) = (x, inl refl, e)
  In-of_map f (x ∷ xs) b (inr m) = let (a, n, e) = In-of_map f xs b m in (a, inr n, e)
