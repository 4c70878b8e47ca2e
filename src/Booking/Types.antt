-- ===== src/Booking/Types.antt =====
-- The data of booking.go and the row of store.go.
use unified_service_schedule.Common.{ℕ, String, Option}

pub data Status : Type 0 where
  held confirmed cancelled : Status

-- ErrUnavailable, ErrInvalid, ErrIdempotencyConflict and ErrNotFound, which wrapping in a message
-- leaves what they are for errors.Is, and any other error.
pub data BookingError : Type 0 where
  unavailable invalid idempotency_conflict not_found other : BookingError

-- What an operation of the store reports: pgx.ErrNoRows (ErrNotFound, from Promote), SQLSTATE
-- 23505, or any other error.
pub data StoreError : Type 0 where
  no_rows unique_violation failure : StoreError

pub record AppointmentRow : Type 0 where
  pub id : String
  pub dealership_id : String
  pub customer_id : String
  pub vehicle_id : String
  pub service_type_id : String
  pub technician_id : Option String
  pub service_bay_id : Option String
  pub tech_occupation_id : Option String
  pub bay_occupation_id : Option String
  pub start_at : ℕ
  pub end_at : ℕ
  pub status : Status
  pub hold_expires_at : Option ℕ
  pub idempotency_key : Option String
  pub request_fingerprint : Option String

pub record HoldRequest : Type 0 where
  pub dealership_id : String
  pub customer_id : String
  pub vehicle_id : String
  pub service_type_id : String
  pub start : String

pub record ConfirmRequest : Type 0 where
  pub hold_id : String
  pub dealership_id : String
  pub customer_id : String
  pub vehicle_id : String
  pub service_type_id : String
  pub start : String

-- The answer's body; instants stay numbers, and an absent text is "".
pub record Appointment : Type 0 where
  pub id : String
  pub dealership_id : String
  pub customer_id : String
  pub vehicle_id : String
  pub service_type_id : String
  pub start_at : ℕ
  pub end_at : ℕ
  pub status : Status
  pub hold_expires_at : Option ℕ
  pub technician_id : String
  pub service_bay_id : String
  pub tech_occupation : String
  pub bay_occupation_id : String
