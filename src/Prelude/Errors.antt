-- ===== src/Prelude/Errors.antt =====
-- The exceptions that the modelled code raises, and fallible computations as values.
use Prim.Native.String.{String}
use mathlib.Core.Path.{◌≡◌, refl}
use mathlib.Core.Option.{Option, none, some}
use mathlib.Core.Logic.{◌⊎◌, inl, inr}

pub data Error : Type 0 where
  -- a subscript of a missing key
  key_error : Error
  -- the `ValueError` of `Workflow.build_dag`: a task and a name it depends on that no task has
  unknown_dependency : (task dep : String) → Error
  cycle_detected_error : Error
  -- a `ValueError` of the workflow parser
  value_error : (message : String) → Error
  type_error : Error
  -- `resume` without a checkpoint store
  runtime_error : Error
  -- a foreign key that a database does not find
  integrity_error : Error
  -- a statement that PostgreSQL refuses
  query_error : Error
  import_error : Error
  file_not_found_error : Error
  -- not an outcome of the program: the fuel of a modelled loop ran out
  out_of_fuel : Error

-- What a method returns or raises.
pub data Result {ℓ} (A : Type ℓ) : Type ℓ where
  err : (exception : Error) → Result A
  ok : (value : A) → Result A

abbrev pub unwrap {ℓ} : {A : Type ℓ} → Error → Option A → Result A
unwrap e none = err e
unwrap e (some a) = ok a

pub Result-cases {ℓ} :
    {A : Type ℓ} (r : Result A) → ((a : A) × (r ≡ ok a)) ⊎ ((e : Error) × (r ≡ err e))
Result-cases (ok a) = inl (a, refl)
Result-cases (err e) = inr (e, refl)

-- The rest of a method runs unless an exception was raised.
infixl 5 ◌>>=◌
abbrev pub ◌>>=◌ {ℓ κ} : {A : Type ℓ} {C : Type κ} → Result A → (A → Result C) → Result C
err exception >>= rest = err exception
ok value >>= rest = rest value

-- A method that succeeds has succeeded in each of its parts.
pub >>=-eq-ok {ℓ κ} :
    {A : Type ℓ} {C : Type κ} (first : Result A) (rest : A → Result C) {c : C}
    → (first >>= rest) ≡ ok c
    → (a : A) × (first ≡ ok a) × (rest a ≡ ok c)
>>=-eq-ok (err exception) rest h = cc
>>=-eq-ok (ok value) rest h = (value, refl, h)
