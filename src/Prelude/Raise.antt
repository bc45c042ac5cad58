-- ===== src/Prelude/Raise.antt =====
-- Python's exceptions as values: the classes the code raises and those its handlers name.
use mathlib.Core.Bool.{Bool, true, false}
use mathlib.Core.Path.{◌≡◌, refl}
use mc_mjlab.Prelude.Tests.{if◌then◌else◌}

-- `overflow_error` is outside the handlers' classes (it is an ArithmeticError).
pub data Raised : Type 0 where
  value_error type_error key_error index_error os_error runtime_error overflow_error
        attribute_error :
      Raised

pub data Result {ℓ} (A : Type ℓ) : Type ℓ where
  ok : A → Result A
  err : Raised → Result A

infixl 5 ◌>>=◌ ◌>>◌
abbrev pub ◌>>=◌ {κ ℓ} : {V : Type κ} {A : Type ℓ} → Result V → (V → Result A) → Result A
err raised >>= next = err raised
ok v >>= next = next v

abbrev pub ◌>>◌ {κ ℓ} : {V : Type κ} {A : Type ℓ} → Result V → Result A → Result A
first >> second = first >>= λ _. second

-- `if not test: raise e`
abbrev pub ensure : Bool → Raised → Result (Unit {0})
ensure true e = ok tt
ensure false e = err e

-- What a chain that returns went through.
pub >>=-eq-ok {κ ℓ} :
    {V : Type κ} {A : Type ℓ} (first : Result V) (next : V → Result A) {a : A}
    → (first >>= next) ≡ ok a
    → (v : V) × (first ≡ ok v) × (next v ≡ ok a)
>>=-eq-ok (err raised) next h = cc
>>=-eq-ok (ok v) next h = (v, refl, h)

pub ensure-eq-ok : (b : Bool) (e : Raised) {u : Unit {0}} → ensure b e ≡ ok u → b ≡ true
ensure-eq-ok true e h = refl
ensure-eq-ok false e h = cc

pub ok-injective {ℓ} : {A : Type ℓ} {a b : A} → ok a ≡ ok b → a ≡ b
ok-injective h = cc

-- Inversion of a branch, for proofs where the test stays shut.
pub if-eq-ok {ℓ κ} :
    {A : Type ℓ} {P : Type κ} (c : Bool) {x y : Result A} {a : A}
    → (c ≡ true → x ≡ ok a → P)
    → (c ≡ false → y ≡ ok a → P)
    → (if c then x else y) ≡ ok a
    → P
if-eq-ok true f g h = f refl h
if-eq-ok false f g h = g refl h
