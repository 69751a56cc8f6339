-- ===== src/Entity/Errors.antt =====
-- internal/domain/entity/errors.go, and the other values of type `error` that the code returns.
use network_actions_aggregat.Prelude.{String, ℕ}

-- `external` is an error of a library or a service, by a number of its own.
-- `errorf` is `fmt.Errorf` with a `%w` operand, `errorf_nil` with a nil one, `message` with none.
pub data Error : Type 0 where
  err_invalid_event_id err_invalid_source_id err_invalid_user_id err_invalid_phone : Error
  err_invalid_event_type err_invalid_started_at err_ended_before_started : Error
  err_invalid_time_range err_time_range_too_large err_event_not_found err_duplicate_event : Error
  context_canceled : Error
  external : ℕ → Error
  message : String → Error
  errorf : String → Error → Error
  errorf_at : String → ℕ → Error → Error
  errorf_nil : String → ℕ → Error

-- A Go function that returns a value and an error.
pub data Result {ℓ} (A : Type ℓ) : Type ℓ where
  ok : A → Result A
  err : Error → Result A

infixl 5 ◌>>=◌
abbrev pub ◌>>=◌ {ℓ κ} : {A : Type ℓ} {B : Type κ} → Result A → (A → Result B) → Result B
ok a >>= f = f a
err e >>= f = err e

-- `if err != nil { return nil, fmt.Errorf("text: %w", err) }`.
abbrev pub wrap_error {ℓ} : {A : Type ℓ} → String → Result A → Result A
wrap_error text (ok a) = ok a
wrap_error text (err e) = err (errorf text e)
