-- ===== src/Go/Errors.antt =====
-- Go's errors, as far as the program tells them apart, and the outcome of a call.
use kafkarator.Base.{ℤ, Bool, false, String, Option, none, some, ◌==◌, string_eq}

-- `aiven.Error`. What its method `Error()` prints is the client library's; it stands here as a field.
pub record AivenError : Type 0 where
  pub message : String
  pub more_info : String
  pub status : ℤ
  pub printed : String

pub data Error : Type 0 where
  -- `errors.New`, `fmt.Errorf` without `%w`, and errors of libraries, by their text
  text : String → Error
  -- an error variable of a package, which `errors.Is` compares by identity
  sentinel : String → Error
  -- `fmt.Errorf` with `%w`: the whole text, and the error that it wraps
  wrap : String → Error → Error
  aiven : AivenError → Error

-- `err.Error()`
unfoldable pub error_text : Error → String
error_text (text s) = s
error_text (sentinel s) = s
error_text (wrap s _) = s
error_text (aiven e) = e.printed

-- `err.(aiven.Error)`: the error itself, not what it wraps.
unfoldable pub assert_aiven : Error → Option AivenError
assert_aiven (aiven e) = some e
assert_aiven _ = none

-- `errors.As` with a target of type `aiven.Error`.
unfoldable pub as_aiven : Error → Option AivenError
as_aiven (aiven e) = some e
as_aiven (wrap _ e) = as_aiven e
as_aiven _ = none

-- `errors.Is` with a sentinel as its target.
unfoldable pub is_sentinel : Error → String → Bool
is_sentinel (sentinel s) name = s == name
is_sentinel (wrap _ e) name = is_sentinel e name
is_sentinel _ _ = false

-- How a call ends. Where Go returns `(value, err)` the value is not used if `err` is set.
pub data Result {ℓ} (A : Type ℓ) : Type ℓ where
  ok : A → Result A
  err : Error → Result A
  panic : Result A

infixl 5 ◌>>?◌
-- The steps of a pure computation that may fail.
abbrev pub ◌>>?◌ {ℓ κ} : {A : Type ℓ} {B : Type κ} → Result A → (A → Result B) → Result B
ok a >>? f = f a
err e >>? f = err e
panic >>? f = panic
