-- ===== src/Prelude/Results.antt =====
-- Results of C++ code that can end in a fault instead of a value.
use mathlib.Core.Bool.{Bool, true, false}
use mathlib.Core.Path.{◌≡◌, refl}
use native.Mathlib.Omega.{arith}

-- A failed `Assert` or `assert`; a `throw`; undefined behaviour (a division by zero, a read
-- outside a vector); a loop that ran out of its fuel.
pub data Error : Type 0 where
  assertion thrown undefined fuel : Error

pub data Result {ℓ} (A : Type ℓ) : Type ℓ where
  ok : A → Result A
  err : Error → Result A

abbrev pub guard : Bool → Error → Result (Unit {0})
guard c e = elim c [ true ↦ ok tt | false ↦ err e ]

infixl 5 ◌>>=◌
abbrev pub ◌>>=◌ {ℓ κ} :
    {A : Type ℓ} {B : Type κ} (first : Result A) (next : A → Result B) → Result B
ok found >>= next = next found
err fault >>= next = err fault

-- A sequence that returns has a first part that returns.
pub >>=-eq-ok {ℓ κ} :
    {A : Type ℓ} {B : Type κ} {value : B} (first : Result A) (next : A → Result B)
    → (first >>= next) ≡ ok value
    → (found : A) × (first ≡ ok found) × (next found ≡ ok value)
>>=-eq-ok (err fault) next returns = cc
>>=-eq-ok (ok found) next returns = (found, refl, returns)

infixl 5 ◌>>◌
abbrev pub ◌>>◌ {κ} : {B : Type κ} (check : Result (Unit {0})) → Result B → Result B
check >> rest = check >>= λ _. rest

pub ok_inj {ℓ} : {A : Type ℓ} {a b : A} → ok a ≡ ok b → a ≡ b
ok_inj h = ground arith
