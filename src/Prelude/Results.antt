-- ===== src/Prelude/Results.antt =====
-- What a call returns or throws.
use Prim.Native.Nat.{ℕ}
use Prim.Native.String.{String}
use mathlib.Core.Path.{◌≡◌, refl}
use mathlib.Core.Bool.{Bool, true, false}

-- A NestJS exception by its HTTP status and its code (its message where it has no code), or any
-- other error, which the framework reports as 500.
pub data Failure : Type 0 where
  http : ℕ → String → Failure
  crash : String → Failure
  -- AttestationRejectedError
  rejected : String → Failure

pub data Result {ℓ} (A : Type ℓ) : Type ℓ where
  ok : A → Result A
  err : Failure → Result A

-- if (!test) throw failure
abbrev pub guard : Bool → Failure → Result (Unit {0})
guard false failure = err failure
guard true failure = ok tt

infixl 5 ◌>>=◌
abbrev pub ◌>>=◌ {ℓ κ} :
    {A : Type ℓ} {B : Type κ} → (before : Result A) (next : A → Result B) → Result B
err failure >>= next = err failure
ok value >>= next = next value

-- What a successful chain went through.
pub >>=-eq-ok {ℓ κ} :
    {A : Type ℓ} {B : Type κ} (before : Result A) (next : A → Result B) {b : B}
    → (before >>= next) ≡ ok b
    → (value : A) × (before ≡ ok value) × (next value ≡ ok b)
>>=-eq-ok (err failure) next h = cc
>>=-eq-ok (ok value) next h = (value, refl, h)

-- A check, and what follows it.
infixl 5 ◌>>◌
abbrev pub ◌>>◌ {ℓ} : {B : Type ℓ} → (check : Result (Unit {0})) (after : Result B) → Result B
check >> after = check >>= λ _. after
