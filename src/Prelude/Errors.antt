-- ===== src/Prelude/Errors.antt =====
-- Python's exceptions as values: a call returns `ok`, or raises one of the errors of the source.
use mathlib.Core.Path.{◌≡◌, refl}
use mathlib.Core.Bool.{Bool, true, false}
use mathlib.Core.Logic.{◌⊎◌, ◌≢◌, inl, inr}
use native.Mathlib.Omega.{arith}
use mathlib.Core.Option.{Option, none, some}

-- `out_of_fuel` is no exception: the model of a loop ran out of rounds, where the source goes on.
pub data Error : Type 0 where
  value_error assertion_error key_error index_error not_implemented_error : Error
  zero_division_error no_free_blocks_error runtime_error type_error unbound_local_error : Error
  out_of_fuel : Error

pub data Result {ℓ} (T : Type ℓ) : Type ℓ where
  raise : Error → Result T
  ok : T → Result T

-- A lookup that may miss, with the exception of a miss.
abbrev pub or_raise {ℓ} : {T : Type ℓ} → Option T → Error → Result T
or_raise none error = raise error
or_raise (some found) error = ok found

infixl 5 ◌>>=◌ ◌>>◌
abbrev pub ◌>>=◌ {ℓ ℓ'} : {S : Type ℓ} {T : Type ℓ'} → Result S → (S → Result T) → Result T
raise error >>= next = raise error
ok result >>= next = next result

-- `if not condition: raise error`, and `assert condition`.
abbrev pub check : Bool → Error → Result (Unit {0})
check true error = ok tt
check false error = raise error

abbrev pub assert : Bool → Result (Unit {0})
assert condition = check condition assertion_error

abbrev pub ◌>>◌ {ℓ} : {T : Type ℓ} → Result (Unit {0}) → Result T → Result T
first >> next = first >>= λ _. next

-- What is known when a chain of calls has returned: its first call returned too.
pub bind_ok {ℓ ℓ'} :
    {S : Type ℓ} {T : Type ℓ'} (first : Result S) (next : S → Result T) {out : T}
    → (first >>= next) ≡ ok out
    → (mid : S) × (first ≡ ok mid) × (next mid ≡ ok out)
bind_ok (raise error) next returned = cc
bind_ok (ok mid) next returned = (mid, refl, returned)

-- A call raises or returns.
pub Result-cases {ℓ} :
    {T : Type ℓ} (call : Result T)
    → ((error : Error) × (call ≡ raise error)) ⊎ ((result : T) × (call ≡ ok result))
Result-cases (raise error) = inl (error, refl)
Result-cases (ok result) = inr (result, refl)

-- A chain of calls ends if its parts do.
pub ends_bind :
    {S : Type 0} {T : Type 0} (first : Result S) (next : S → Result T)
    → first ≢ raise out_of_fuel
    → ((mid : S) → first ≡ ok mid → next mid ≢ raise out_of_fuel)
    → (first >>= next) ≢ raise out_of_fuel
ends_bind (raise error) next h k = λ e. ground arith
ends_bind (ok mid) next h k = k mid refl
