-- ===== src/Prelude/Outcome.antt =====
-- What a Go function that returns an error gives back. Of an `APIError` (internal/audit/model.go)
-- the status and the code are kept; its text for the user is not.
use Prim.Native.Nat.{ℕ}
use Prim.Native.String.{String}
use mathlib.Core.Bool.{Bool, true, false}
use mathlib.Core.Path.{◌≡◌, refl}

-- `internal` is any error that is no `APIError`: the database, the vault, a decoder.
pub data Failure : Type 0 where
  problem : ℕ → String → Failure
  internal : Failure

pub data Result {ℓ} (A : Type ℓ) : Type ℓ where
  ok : A → Result A
  err : Failure → Result A

-- `if err != nil { return err }` between two statements.
infixl 5 ◌>>=◌ ◌>>◌
abbrev pub ◌>>=◌ {ℓ₁ ℓ₂} :
    {Value : Type ℓ₁} {Next : Type ℓ₂} → Result Value → (Value → Result Next) → Result Next
err failure >>= rest = err failure
ok value >>= rest = rest value

abbrev pub ◌>>◌ {ℓ₂} : {Next : Type ℓ₂} → Result (Unit {0}) → Result Next → Result Next
check >> rest = check >>= λ passed. rest

-- `if bad { return problem }`.
abbrev pub refuse_if : Bool → Failure → Result (Unit {0})
refuse_if true e = err e
refuse_if false e = ok tt

-- A chain that succeeds has a first part that does.
pub >>=-eq-ok {ℓ₁ ℓ₂} :
    {Value : Type ℓ₁} {Next : Type ℓ₂} (first : Result Value) (rest : Value → Result Next)
    {n : Next}
    → (first >>= rest) ≡ ok n
    → (v : Value) × (first ≡ ok v) × (rest v ≡ ok n)
>>=-eq-ok (err e) rest h = cc
>>=-eq-ok (ok v) rest h = (v, refl, h)

-- What a result ensures if it is no error, and the rules for the statements that make it.
abbrev pub Ensures {ℓ₁ ℓ₂} : {Value : Type ℓ₁} → (Value → Type ℓ₂) → Result Value → Type ℓ₂
Ensures P (ok value) = P value
Ensures P (err failure) = Unit

pub >>=-Ensures {ℓ₁ ℓ₂ ℓ₃} :
    {Value : Type ℓ₁} {Next : Type ℓ₂} (P : Next → Type ℓ₃) (first : Result Value)
    (rest : Value → Result Next)
    → ((v : Value) → first ≡ ok v → Ensures P (rest v))
    → Ensures P (first >>= rest)
>>=-Ensures P (err e) rest h = tt
>>=-Ensures P (ok v) rest h = h v refl

pub refuse_if-Ensures {ℓ₂ ℓ₃} :
    {Next : Type ℓ₂} (P : Next → Type ℓ₃) (b : Bool) (e : Failure) (rest : Result Next)
    → (b ≡ false → Ensures P rest)
    → Ensures P (refuse_if b e >> rest)
refuse_if-Ensures P true e rest h = tt
refuse_if-Ensures P false e rest h = h refl
