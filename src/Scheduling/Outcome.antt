-- ===== src/Scheduling/Outcome.antt =====
-- The errors that backend/src/fsm/scheduling raises, as values, and the result of a call that may
-- raise. `scheduling_error` is the base class raised by itself; `value_error`, `overflow_error`
-- `integrity_error` and `pending_rollback` are Python's and the database session's, `calendar_error`
-- is whatever a calendar or a resolver raises.
use field_service_management.Base.{ℕ, Bool, true, false, List, ◌≡◌, refl}

-- The party and field that `IncompleteContactInfo.missing` names.
pub data Missing : Type 0 where
  customer_address customer_phone technician_phone : Missing

pub data Error : Type 0 where
  scheduling_error invalid_time_range invalid_transition not_found slot_unavailable : Error
  incomplete_contact_info : List Missing → Error
  booking_rate_limited : ℕ → Error
  value_error overflow_error integrity_error pending_rollback : Error
  calendar_error create_not_processed : Error
  out_of_fuel : Error

-- How a call ends.
pub data Result {ℓ} (Value : Type ℓ) : Type ℓ where
  ok : Value → Result Value
  err : Error → Result Value

-- `if condition: raise error`.
abbrev pub raise_if : (condition : Bool) → Error → Result (Unit {0})
raise_if false error = ok tt
raise_if true error = err error

module _ {ℓ κ} {Value : Type ℓ} {Answer : Type κ} where
  infixl 5 ◌>>=◌
  -- The rest of the body runs on what the call returned.
  abbrev pub ◌>>=◌ : Result Value → (Value → Result Answer) → Result Answer
  err error >>= rest = err error
  ok value >>= rest = rest value

  pub >>=-eq-ok :
      (call : Result Value) (rest : Value → Result Answer) {answer : Answer}
      → (call >>= rest) ≡ ok answer
      → (value : Value) × (call ≡ ok value) × (rest value ≡ ok answer)
  >>=-eq-ok (err error) rest h = cc
  >>=-eq-ok (ok value) rest h = (value, refl, h)

module _ {ℓ} {Answer : Type ℓ} where
  infixl 5 ◌>>◌
  abbrev pub ◌>>◌ : Result (Unit {0}) → Result Answer → Result Answer
  check >> rest = check >>= λ _. rest
