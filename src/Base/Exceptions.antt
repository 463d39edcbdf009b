-- ===== src/Base/Exceptions.antt =====
-- Code that throws, as a result with its exception. An operation that writes returns the tables
-- beside its result, since what was written before a throw may stay written.
use mathlib.Core.Path.{◌≡◌, refl}
use mathlib.Core.Logic.{◌⊎◌, inl, inr}
use mathlib.Core.Bool.{Bool, true, false}
use mathlib.Core.Option.{Option, none, some}

pub data Result (E A : Type 0) : Type 0 where
  ok : A → Result E A
  err : E → Result E A

infixl 5 ◌>>=◌ ◌>>◌
abbrev pub ◌>>=◌ : {E A B : Type 0} → Result E A → (A → Result E B) → Result E B
err thrown >>= next = err thrown
ok value >>= next = next value

abbrev pub ◌>>◌ : {E B : Type 0} → Result E (Unit {0}) → Result E B → Result E B
check >> rest = check >>= λ _. rest

-- `if (!test) throw e`
abbrev pub guard : {E : Type 0} → Bool → E → Result E (Unit {0})
guard true e = ok tt
guard false e = err e

abbrev pub from_option : {E A : Type 0} → E → Option A → Result E A
from_option e none = err e
from_option e (some a) = ok a

pub >>=-eq-ok :
    {E A B : Type 0} (r : Result E A) (next : A → Result E B) {y : B}
    → (r >>= next) ≡ ok y
    → (x : A) × (r ≡ ok x) × (next x ≡ ok y)
>>=-eq-ok (err thrown) next q = cc
>>=-eq-ok (ok value) next q = (value, refl, q)

pub guard-eq-ok : {E : Type 0} (b : Bool) (e : E) {u : Unit {0}} → guard b e ≡ ok u → b ≡ true
guard-eq-ok true e h = refl
guard-eq-ok false e h = cc

pub from_option-eq-ok :
    {E A : Type 0} (e : E) (o : Option A) {a : A} → from_option e o ≡ ok a → o ≡ some a
from_option-eq-ok e none h = cc
from_option-eq-ok e (some a) h = cc

pub Result-cases :
    {E A : Type 0} (r : Result E A) → ((e : E) × (r ≡ err e)) ⊎ ((a : A) × (r ≡ ok a))
Result-cases (err e) = inl (e, refl)
Result-cases (ok a) = inr (a, refl)
