-- ===== src/Booking/Service.antt =====
-- backend/services/booking/service.go. `now` is time.Now(); the request id is passed on where it
-- salts a pick, and its tracing metadata is left out. Where the source returns from the middle of
-- a function, the rest is a helper by clauses.
pub mod Holds
pub mod Hours
use unified_service_schedule.Common.{
  ℕ, String, Bool, true, false, not, ◌&&◌, ◌||◌, Option, none, some, ◌==◌, ltb, if◌then◌else◌,
  Result, ok, err,
}
use unified_service_schedule.Rpc.{Code}
use unified_service_schedule.Booking.Types.{
  Status, held, confirmed, cancelled, BookingError, unavailable, invalid, idempotency_conflict,
  not_found, other, StoreError, unique_violation, AppointmentRow, HoldRequest, ConfirmRequest,
  Appointment,
}
use unified_service_schedule.Booking.Hours.{Snapshot, within_hours}
use unified_service_schedule.Booking.Fingerprint.{fingerprint}
use unified_service_schedule.Booking.CatalogClient.{CatalogError}
use unified_service_schedule.Booking.Clients.{TechClient, BayClient, StoreClient, Env, World}
use unified_service_schedule.Booking.Saga.{
  Action, ◌>>=◌, ◌>>◌, pure, on_tech, on_bay, on_store, SagaResult, release_tech, release_bay,
  release_both, confirm_both, reserve_saga,
}

-- deref, and the empty text of an unset pointer in toAppointment
abbrev pub deref : Option String → String
deref none = ""
deref (some s) = s

unfoldable pub to_appointment : AppointmentRow → Appointment
to_appointment r = record {
  id = r.id;
  dealership_id = r.dealership_id;
  customer_id = r.customer_id;
  vehicle_id = r.vehicle_id;
  service_type_id = r.service_type_id;
  start_at = r.start_at;
  end_at = r.end_at;
  status = r.status;
  hold_expires_at = r.hold_expires_at;
  technician_id = deref r.technician_id;
  service_bay_id = deref r.service_bay_id;
  tech_occupation = deref r.tech_occupation_id;
  bay_occupation_id = deref r.bay_occupation_id;
}

-- The row that CreateHold and confirmWithoutHold hand to InsertHeld.
unfoldable pub new_row : HoldRequest → ℕ → SagaResult → AppointmentRow
new_row req start res = record {
  id = "";
  dealership_id = req.dealership_id;
  customer_id = req.customer_id;
  vehicle_id = req.vehicle_id;
  service_type_id = req.service_type_id;
  technician_id = some res.technician_id;
  service_bay_id = some res.service_bay_id;
  tech_occupation_id = some res.tech_occupation_id;
  bay_occupation_id = some res.bay_occupation_id;
  start_at = start;
  end_at = res.end;
  status = held;
  hold_expires_at = none;
  idempotency_key = none;
  request_fingerprint = none;
}

-- the fields that both kinds of request have
unfoldable pub hold_part : ConfirmRequest → HoldRequest
hold_part req = record {
  dealership_id = req.dealership_id;
  customer_id = req.customer_id;
  vehicle_id = req.vehicle_id;
  service_type_id = req.service_type_id;
  start = req.start;
}

abbrev pub status_or_held : Result StoreError AppointmentRow → Option Status
status_or_held (err _) = none
status_or_held (ok r) = some r.status

abbrev pub is_unique_violation : StoreError → Bool
is_unique_violation unique_violation = true
is_unique_violation _ = false

-- Steps 1 and 2: the start, the Catalog's snapshot, and the hours.
unfoldable pub admit : Env → ℕ → HoldRequest → Result BookingError (ℕ × Snapshot)
admit env now req = elim (env.parse_start req.start) [
  | none ↦ err invalid
  | some start ↦
      elim (env.snapshot req.dealership_id req.service_type_id req.customer_id req.vehicle_id) [
        | err _ ↦ err invalid
        | ok snap ↦
            if not (ltb now start) || not (within_hours env.zones snap start)
            then err invalid
            else ok (start, snap)
      ]
]

module _ {T B S : Type 0} (tech : TechClient T) (bay : BayClient B) (store : StoreClient S)
    (env : Env) where
  inserted_or_released :
      SagaResult
      → Result StoreError AppointmentRow
      → Action T B S (Result BookingError AppointmentRow)
  inserted_or_released res (err _) = do
    release_both tech bay res.bay_occupation_id res.tech_occupation_id
    pure (err unavailable)
  inserted_or_released res (ok row) = pure (ok row)

  insert_reserved :
      HoldRequest
      → ℕ
      → Result BookingError SagaResult
      → Action T B S (Result BookingError AppointmentRow)
  unfolding inserted_or_released new_row
  insert_reserved req start (err e) = pure (err e)
  insert_reserved req start (ok res) = do
    r ← on_store (store.insert_held (new_row req start res))
    inserted_or_released res r

  -- Steps 4 to 6: reserve both, then insert the row or release both.
  unfoldable pub claim_row :
      String → HoldRequest → ℕ → Snapshot → Action T B S (Result BookingError AppointmentRow)
  unfolding insert_reserved
  claim_row request_id req start snap = do
    res ← reserve_saga tech bay env request_id req.service_type_id snap start
    insert_reserved req start res

  abbrev to_appointments : Result BookingError AppointmentRow → Result BookingError Appointment
  to_appointments (err e) = err e
  to_appointments (ok row) = ok (to_appointment row)

  hold_admitted :
      String
      → HoldRequest
      → Result BookingError (ℕ × Snapshot)
      → Action T B S (Result BookingError Appointment)
  unfolding to_appointment claim_row
  hold_admitted request_id req (err e) = pure (err e)
  hold_admitted request_id req (ok (start, snap)) = do
    row ← claim_row request_id req start snap
    pure (to_appointments row)

  unfoldable pub create_hold :
      ℕ → String → HoldRequest → Action T B S (Result BookingError Appointment)
  unfolding hold_admitted
  create_hold now request_id req = hold_admitted request_id req (admit env now req)
