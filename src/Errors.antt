-- ===== src/Errors.antt =====
-- The exceptions that the modelled code raises or catches, and results that may be one of them:
-- Python's own, and those of backend/app/exceptions.py with their status codes.
use ghost_meter.Prelude.{ℕ, String, Bool, true, false, ◌≡◌, refl, ◌⊎◌, inl, inr}

pub data Error : Type 0 where
  attribute_error type_error value_error key_error overflow_error runtime_error integrity_error
        struct_error expression_error :
      Error
  app_exception : ℕ → String → Error

-- NotFoundException
abbrev pub not_found : String → Error
not_found code = app_exception 404 code

-- ValidationException
abbrev pub validation : Error
validation = app_exception 422 "VALIDATION_ERROR"

-- ConflictException
abbrev pub conflict : String → Error
conflict code = app_exception 409 code

-- ForbiddenException
abbrev pub forbidden : String → Error
forbidden code = app_exception 403 code

pub data Result {ℓ} (A : Type ℓ) : Type ℓ where
  ok : A → Result A
  err : Error → Result A

infixl 5 ◌>>=◌ ◌>>◌
abbrev pub ◌>>=◌ {ℓ κ} : {A : Type ℓ} {B : Type κ} → Result A → (A → Result B) → Result B
ok a >>= f = f a
err e >>= f = err e

abbrev pub ◌>>◌ {ℓ κ} : {A : Type ℓ} {B : Type κ} → Result A → Result B → Result B
m >> k = m >>= λ _. k

-- `if bad: raise e`
abbrev pub raise_if : Bool → Error → Result (Unit {0})
raise_if true e = err e
raise_if false e = ok tt

pub Result-cases {ℓ} :
    {A : Type ℓ} (r : Result A) → ((a : A) × (r ≡ ok a)) ⊎ ((e : Error) × (r ≡ err e))
Result-cases (ok a) = inl (a, refl)
Result-cases (err e) = inr (e, refl)

-- A chain that has given `y`: its first step has given some `x`, and the rest gives `y` at `x`.
pub >>=-eq-ok {ℓ κ} :
    {Y : Type κ} {X : Type ℓ} (step : Result X) (rest : X → Result Y) {y : Y}
    (given : (step >>= rest) ≡ ok y)
    → (x : X) × (step ≡ ok x) × (rest x ≡ ok y)
>>=-eq-ok (err e) rest given = cc
>>=-eq-ok (ok x) rest given = (x, refl, given)

-- A chain that has raised: its first step has, or the rest has at what the step gave.
pub >>=-eq-err {ℓ κ} :
    {Y : Type κ} {X : Type ℓ} (step : Result X) (rest : X → Result Y) {e : Error}
    (given : (step >>= rest) ≡ err e)
    → (step ≡ err e) ⊎ ((x : X) × (step ≡ ok x) × (rest x ≡ err e))
>>=-eq-err (err x) rest given = inl cc
>>=-eq-err (ok x) rest given = inr (x, refl, given)

pub raise_if-eq-ok : (b : Bool) (e : Error) (u : Unit {0}) → raise_if b e ≡ ok u → b ≡ false
raise_if-eq-ok true e u h = cc
raise_if-eq-ok false e u h = refl
