-- ===== src/Booking/Recovery.antt =====
-- Get, Cancel and the sweeper of backend/services/booking/service.go.
pub mod Release
pub mod Sweep
pub mod Cleared
pub mod Recovered
mod Examples
use unified_service_schedule.Common.{
  ℕ, String, Bool, true, false, not, ◌&&◌, Option, none, some, List, [], ◌∷◌, ◌==◌, if◌then◌else◌,
  is_none, Result, ok, err,
}
use unified_service_schedule.Rpc.{Code}
use unified_service_schedule.Booking.Types.{
  BookingError, unavailable, not_found, StoreError, AppointmentRow, Appointment,
}
use unified_service_schedule.Booking.Clients.{TechClient, BayClient, StoreClient, World}
use unified_service_schedule.Booking.Saga.{
  Action, ◌>>=◌, ◌>>◌, pure, on_store, release_tech, release_bay,
}
use unified_service_schedule.Booking.Service.{to_appointment}

abbrev pub sweep_limit : ℕ
sweep_limit = 50

abbrev pub is_ok : {E A : Type 0} → Result E A → Bool
is_ok (ok _) = true
is_ok (err _) = false

module _ {T B S : Type 0} (tech : TechClient T) (bay : BayClient B) (store : StoreClient S) where
  found_appointment : Result StoreError AppointmentRow → Result BookingError Appointment
  unfolding to_appointment
  found_appointment (err _) = err not_found
  found_appointment (ok row) = ok (to_appointment row)

  unfoldable pub get_appointment : String → Action T B S (Result BookingError Appointment)
  unfolding found_appointment
  get_appointment id = do row ← on_store (store.get id); pure (found_appointment row)

  -- Release of an id that may be unset.
  unfoldable pub release_bay_of : Option String → Action T B S (Result Code (Unit {0}))
  release_bay_of none = pure (ok tt)
  release_bay_of (some id) = release_bay tech bay id

  unfoldable pub release_tech_of : Option String → Action T B S (Result Code (Unit {0}))
  release_tech_of none = pure (ok tt)
  release_tech_of (some id) = release_tech tech bay id

  after_cancel :
      AppointmentRow → Result StoreError Bool → Action T B S (Result BookingError (Unit {0}))
  unfolding release_bay_of release_tech_of
  after_cancel row (err _) = pure (err unavailable)
  after_cancel row (ok _) = do
    release_bay_of row.bay_occupation_id
    release_tech_of row.tech_occupation_id
    pure (ok tt)

  cancel_found :
      String → Result StoreError AppointmentRow → Action T B S (Result BookingError (Unit {0}))
  unfolding after_cancel
  cancel_found id (err _) = pure (err not_found)
  cancel_found id (ok row) = do r ← on_store (store.cancel id); after_cancel row r

  unfoldable pub cancel : String → Action T B S (Result BookingError (Unit {0}))
  unfolding cancel_found
  cancel id = do row ← on_store (store.get id); cancel_found id row

  clear_if : Bool → String → Action T B S (Unit {0})
  clear_if false id = pure tt
  clear_if true id = do on_store (store.clear_occupation_ids id); pure tt

  -- One round of the loop of releaseCancelled.
  unfoldable pub release_row : AppointmentRow → Action T B S (Unit {0})
  unfolding release_bay_of release_tech_of clear_if
  release_row r =
      if is_none r.bay_occupation_id && is_none r.tech_occupation_id then pure tt else (do
        b ← release_bay_of r.bay_occupation_id
        t ← release_tech_of r.tech_occupation_id
        clear_if (is_ok b && is_ok t) r.id)

  unfoldable pub release_cancelled : List AppointmentRow → Action T B S (Unit {0})
  unfolding release_row
  release_cancelled [] = pure tt
  release_cancelled (r ∷ rs) = do release_row r; release_cancelled rs

  release_listed : Result StoreError (List AppointmentRow) → Action T B S (Unit {0})
  unfolding release_cancelled
  release_listed (err _) = pure tt
  release_listed (ok rows) = release_cancelled rows

  after_sweep : Result StoreError (List AppointmentRow) → Action T B S (Unit {0})
  unfolding release_listed
  after_sweep (err _) = pure tt
  after_sweep (ok rows) = do
    release_cancelled rows
    pending ← on_store (store.list_cancelled_needing_release sweep_limit)
    release_listed pending

  unfoldable pub sweep_once : Action T B S (Unit {0})
  unfolding after_sweep
  sweep_once = do rows ← on_store (store.sweep_batch sweep_limit); after_sweep rows
