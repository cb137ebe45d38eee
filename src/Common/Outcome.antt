-- ===== src/Common/Outcome.antt =====
-- The outcomes of calls that may throw, with the errors as a parameter.
use mathlib.Core.Path.{◌≡◌, refl}
use mathlib.Core.Bool.{Bool, true, false}

-- What a call comes to: a value, an error that is thrown, or (in the model of a loop only) that the
-- fuel given did not suffice.
pub data Outcome (E A : Type 0) : Type 0 where
  ok : A → Outcome E A
  err : E → Outcome E A
  out_of_fuel : Outcome E A

abbrev pub throw_if : {E : Type 0} → Bool → E → Outcome E (Unit {0})
throw_if is_bad code = elim is_bad [ true ↦ err code | false ↦ ok tt ]

-- The next call is made with the value, unless the first one threw.
infixl 5 ◌>>=◌
abbrev pub ◌>>=◌ : {E A B : Type 0} → Outcome E A → (A → Outcome E B) → Outcome E B
out_of_fuel >>= next = out_of_fuel
err code >>= next = err code
ok value >>= next = next value

infixl 5 ◌>>◌
abbrev pub ◌>>◌ : {E B : Type 0} → Outcome E (Unit {0}) → Outcome E B → Outcome E B
first >> second = first >>= λ nothing. second

-- What a call that returned did: its first part returned a value, and the rest returned for it.
pub >>=-eq-ok :
    {E A B : Type 0} (first : Outcome E A) (next : A → Outcome E B) {result : B}
    → (first >>= next) ≡ ok result
    → (value : A) × (first ≡ ok value) × (next value ≡ ok result)
>>=-eq-ok out_of_fuel next returned = cc
>>=-eq-ok (err code) next returned = cc
>>=-eq-ok (ok value) next returned = (value, refl, returned)

-- A guard that let the call go on.
pub throw_if-eq-ok :
    {E B : Type 0} (is_bad : Bool) (code : E) {rest : Outcome E B} {result : B}
    → (throw_if is_bad code >> rest) ≡ ok result
    → (is_bad ≡ false) × (rest ≡ ok result)
throw_if-eq-ok true code returned = cc
throw_if-eq-ok false code returned = (refl, returned)

pub err-ne-ok : {E A : Type 0} {code : E} {value : A} → err code ≡ ok value → ⊥
err-ne-ok same = cc

pub ok-injective :
    {E A : Type 0} {first second : A} (outcome : Outcome E A)
    → outcome ≡ ok first
    → outcome ≡ ok second
    → first ≡ second
ok-injective outcome same other = cc
