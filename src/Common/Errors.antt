-- ===== src/Common/Errors.antt =====
-- A call that returns, or throws an error with its message.
use Prim.Native.String.{String}
use mathlib.Core.Path.{◌≡◌, refl}
use mathlib.Core.Logic.{◌⊎◌, inl, inr}
use mathlib.Core.Bool.{Bool, true, false}

pub data Result {ℓ} (A : Type ℓ) : Type ℓ where
  ok : A → Result A
  fail : String → Result A

-- `if (bad) fail(message)`
abbrev pub fail_if : Bool → String → Result (Unit {0})
fail_if bad message = elim bad [ true ↦ fail message | false ↦ ok tt ]

infixl 5 ◌>>◌
abbrev pub ◌>>◌ {ℓ} : {A : Type ℓ} → Result (Unit {0}) → Result A → Result A
ok tt >> rest = rest
fail message >> rest = fail message

infixl 5 ◌>>=◌
abbrev pub ◌>>=◌ {κ ℓ} : {B : Type κ} {A : Type ℓ} → Result B → (B → Result A) → Result A
fail message >>= rest = fail message
ok b >>= rest = rest b

-- A chain went through, so its first call did, and the rest after it.
pub >>=-eq-ok {κ ℓ} :
    {B : Type κ} {A : Type ℓ}
    → (call : Result B) (rest : B → Result A) {a : A} → (call >>= rest) ≡ ok a
    → (b : B) × (call ≡ ok b) × (rest b ≡ ok a)
>>=-eq-ok (fail message) rest went = cc
>>=-eq-ok (ok b) rest went = (b, refl, went)

pub fail_if-eq-ok : (bad : Bool) (message : String) → fail_if bad message ≡ ok tt → bad ≡ false
fail_if-eq-ok true message h = cc
fail_if-eq-ok false message h = refl

-- A guard that went through.
pub fail_if->>-eq-ok {ℓ} :
    {B : Type ℓ} (bad : Bool) (message : String) (k : Result B) {b : B}
    → (fail_if bad message >> k) ≡ ok b
    → (bad ≡ false) × (k ≡ ok b)
fail_if->>-eq-ok true message k h = cc
fail_if->>-eq-ok false message k h = (refl, h)

pub >>-eq-ok {ℓ} :
    {B : Type ℓ} (m : Result (Unit {0})) (k : Result B) {b : B}
    → (m >> k) ≡ ok b
    → (m ≡ ok tt) × (k ≡ ok b)
>>-eq-ok (ok tt) k h = (refl, h)
>>-eq-ok (fail m) k h = cc

pub ok_inj {ℓ} : {A : Type ℓ} → (a b : A) → ok a ≡ ok b → a ≡ b
ok_inj a b h = cc

-- A guard before a value that is returned.
pub >>-ok-eq-ok {ℓ} :
    {B : Type ℓ} (m : Result (Unit {0})) (a b : B) → (m >> ok a) ≡ ok b → (m ≡ ok tt) × (a ≡ b)
>>-ok-eq-ok (ok tt) a b h = (refl, cc)
>>-ok-eq-ok (fail m) a b h = cc

-- To split on a result and keep the equation.
pub Result-cases {ℓ} :
    {A : Type ℓ} → (r : Result A) → ((a : A) × (r ≡ ok a)) ⊎ ((m : String) × (r ≡ fail m))
Result-cases (ok a) = inl (a, refl)
Result-cases (fail m) = inr (m, refl)
