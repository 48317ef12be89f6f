-- ===== src/Go.antt =====
-- How a call of the controller's code ends, and the errors that it returns.
use low_latency_faa_s.Prelude.{Option, none, some}

-- The values of Go's `error` type that the controller makes; nil is `none` of `Option Error`.
pub data Error : Type 0 where
  invalid_up_id invalid_down_id invalid_ingress : Error
  unknown_flowlet no_resources : Error
  no_worker no_user no_flowlets no_instance no_sgroup no_free_sgroup : Error
  core_not_found not_running : Error
  no_connection rpc_failed rpc_refused trials_failed deploy_failed : Error

-- A call returns, panics (a nil pointer, an index out of range, a division by zero), or goes on
-- for ever: the fuel of a loop ran out.
pub data Run {ℓ} (A : Type ℓ) : Type ℓ where
  returns : A → Run A
  panic : Run A
  hangs : Run A

infixl 5 ◌>>=◌
abbrev pub ◌>>=◌ {ℓ κ} : {A : Type ℓ} {B : Type κ} → Run A → (A → Run B) → Run B
returns a >>= f = f a
panic >>= f = panic
hangs >>= f = hangs

-- A use of a pointer or of an index.
abbrev pub or_panic {ℓ} : {A : Type ℓ} → Option A → Run A
or_panic (some a) = returns a
or_panic none = panic
