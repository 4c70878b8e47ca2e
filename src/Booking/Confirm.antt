-- ===== src/Booking/Confirm.antt =====
-- Step 7, the confirmation: Confirm, confirmHold, confirmWithoutHold, promoteConfirmed and replay
-- of backend/services/booking/service.go. 200 and 201 are the statuses that Confirm returns.
pub mod Promote
pub mod Failure
pub mod Replay
pub mod Compensation
use unified_service_schedule.Common.{
  ℕ, String, Bool, true, false, not, ◌&&◌, Option, none, some, ◌==◌, if◌then◌else◌, Result, ok, err,
}
use unified_service_schedule.Rpc.{Code}
use unified_service_schedule.Booking.Types.{
  Status, held, confirmed, cancelled, BookingError, unavailable, idempotency_conflict, not_found,
  other, StoreError, AppointmentRow, ConfirmRequest, Appointment,
}
use unified_service_schedule.Booking.Hours.{Snapshot}
use unified_service_schedule.Booking.Fingerprint.{fingerprint}
use unified_service_schedule.Booking.Clients.{TechClient, BayClient, StoreClient, Env, World}
use unified_service_schedule.Booking.Saga.{
  Action, ◌>>=◌, ◌>>◌, pure, on_store, release_both, confirm_both,
}
use unified_service_schedule.Booking.Service.{
  deref, to_appointment, hold_part, is_unique_violation, admit, claim_row,
}

-- The answer of Confirm: the appointment and the HTTP status.
abbrev pub Answer : Type 0
Answer = Result BookingError (Appointment × ℕ)

-- The fingerprint that a request's own fields give.
unfoldable pub request_fingerprint : Env → ConfirmRequest → String → String
request_fingerprint env req hold_id =
    fingerprint env.sha256 hold_id req.dealership_id req.customer_id req.vehicle_id
      req.service_type_id req.start

abbrev pub same_print : String → Option String → Bool
same_print fp none = false
same_print fp (some p) = p == fp

module _ {T B S : Type 0} (tech : TechClient T) (bay : BayClient B) (store : StoreClient S)
    (env : Env) where
  release_and_fail : String → String → BookingError → Action T B S (Result BookingError (Unit {0}))
  release_and_fail bay_id tech_id e = do release_both tech bay bay_id tech_id; pure (err e)

  -- The switch on the row that is read again after a failed Promote.
  after_failed_promote :
      String
      → String
      → StoreError
      → Result StoreError AppointmentRow
      → Action T B S (Result BookingError (Unit {0}))
  unfolding release_and_fail
  after_failed_promote bay_id tech_id e (err _) = release_and_fail bay_id tech_id unavailable
  after_failed_promote bay_id tech_id e (ok cur) = elim cur.status [
    | confirmed ↦ pure (ok tt)
    | cancelled ↦ release_and_fail bay_id tech_id unavailable
    | held ↦
        if is_unique_violation e
        then release_and_fail bay_id tech_id idempotency_conflict
        else release_and_fail bay_id tech_id unavailable
  ]

  after_promote :
      String
      → String
      → String
      → Result StoreError AppointmentRow
      → Action T B S (Result BookingError (Unit {0}))
  unfolding after_failed_promote
  after_promote id bay_id tech_id (ok _) = pure (ok tt)
  after_promote id bay_id tech_id (err e) = do
    cur ← on_store (store.get id)
    after_failed_promote bay_id tech_id e cur

  after_confirm_both :
      String
      → String
      → String
      → String
      → String
      → Result Code (Unit {0})
      → Action T B S (Result BookingError (Unit {0}))
  unfolding after_promote release_and_fail
  after_confirm_both id bay_id tech_id key fp (err _) = release_and_fail bay_id tech_id unavailable
  after_confirm_both id bay_id tech_id key fp (ok _) = do
    r ← on_store (store.promote id key fp)
    after_promote id bay_id tech_id r

  -- The function behind the test for nil.
  promote_claimed :
      String
      → Option String
      → Option String
      → String
      → String
      → Action T B S (Result BookingError (Unit {0}))
  unfolding after_confirm_both
  promote_claimed id (some tech_id) (some bay_id) key fp = do
    r ← confirm_both tech bay tech_id bay_id
    after_confirm_both id bay_id tech_id key fp r
  promote_claimed id _ _ key fp = pure (err unavailable)

  unfoldable pub promote_confirmed :
      AppointmentRow → String → String → Action T B S (Result BookingError (Unit {0}))
  unfolding promote_claimed
  promote_confirmed row key fp =
      promote_claimed row.id row.tech_occupation_id row.bay_occupation_id key fp

  read_back : Result StoreError AppointmentRow → Answer
  unfolding to_appointment
  read_back (err _) = err not_found
  read_back (ok out) = ok (to_appointment out, 201)

  -- What follows promoteConfirmed in both callers.
  get_promoted : String → Result BookingError (Unit {0}) → Action T B S Answer
  unfolding read_back
  get_promoted id (err e) = pure (err e)
  get_promoted id (ok _) = do out ← on_store (store.get id); pure (read_back out)

  unfoldable pub promote_and_get : AppointmentRow → String → String → Action T B S Answer
  unfolding promote_confirmed get_promoted
  promote_and_get row key fp = do r ← promote_confirmed row key fp; get_promoted row.id r

  replay_row : AppointmentRow → Result StoreError (Option AppointmentRow) → Answer
  unfolding to_appointment
  replay_row row (err _) = err other
  replay_row row (ok none) = ok (to_appointment row, 200)
  replay_row row (ok (some prior)) =
      if not (prior.id == row.id) then err idempotency_conflict else ok (to_appointment row, 200)

  -- The switch on row.Status.
  confirm_by_status : Status → String → String → AppointmentRow → Action T B S Answer
  unfolding replay_row promote_and_get to_appointment
  confirm_by_status confirmed hold_id key row =
      if key == "" then pure (ok (to_appointment row, 200)) else (do
        prior ← on_store (store.get_confirmed_by_idempotency_key key)
        pure (replay_row row prior))
  confirm_by_status cancelled hold_id key row = pure (err unavailable)
  confirm_by_status held hold_id key row = promote_and_get row key (
      fingerprint env.sha256 hold_id row.dealership_id row.customer_id row.vehicle_id
        row.service_type_id "")

  confirm_found : String → String → Result StoreError AppointmentRow → Action T B S Answer
  unfolding confirm_by_status
  confirm_found hold_id key (err _) = pure (err not_found)
  confirm_found hold_id key (ok row) = confirm_by_status row.status hold_id key row

  unfoldable pub confirm_hold : String → ConfirmRequest → Action T B S Answer
  unfolding confirm_found
  confirm_hold key req = do
    row ← on_store (store.get req.hold_id)
    confirm_found req.hold_id key row

  -- The error, the appointment to replay, or nothing.
  replayed :
      ConfirmRequest
      → Result StoreError (Option AppointmentRow)
      → Result BookingError (Option Appointment)
  unfolding request_fingerprint to_appointment
  replayed req (err _) = err other
  replayed req (ok none) = ok none
  replayed req (ok (some row)) =
      if same_print (request_fingerprint env req req.hold_id) row.request_fingerprint
      then ok (some (to_appointment row))
      else err idempotency_conflict

  unfoldable pub replay :
      String → ConfirmRequest → Action T B S (Result BookingError (Option Appointment))
  unfolding replayed
  replay key req =
      if key == ""
      then pure (ok none)
      else (do row ← on_store (store.get_confirmed_by_idempotency_key key); pure (replayed req row))

  confirm_claimed :
      String → ConfirmRequest → Result BookingError AppointmentRow → Action T B S Answer
  unfolding promote_and_get request_fingerprint
  confirm_claimed key req (err e) = pure (err e)
  confirm_claimed key req (ok row) = promote_and_get row key (request_fingerprint env req "")

  after_replay :
      String
      → String
      → ConfirmRequest
      → ℕ
      → Snapshot
      → Result BookingError (Option Appointment)
      → Action T B S Answer
  unfolding confirm_claimed hold_part
  after_replay request_id key req start snap (err e) = pure (err e)
  after_replay request_id key req start snap (ok (some appt)) = pure (ok (appt, 200))
  after_replay request_id key req start snap (ok none) = do
    row ← claim_row tech bay store env request_id (hold_part req) start snap
    confirm_claimed key req row

  confirm_admitted :
      String → String → ConfirmRequest → Result BookingError (ℕ × Snapshot) → Action T B S Answer
  unfolding after_replay replay
  confirm_admitted request_id key req (err e) = pure (err e)
  confirm_admitted request_id key req (ok (start, snap)) = do
    r ← replay key req
    after_replay request_id key req start snap r

  unfoldable pub confirm_without_hold : ℕ → String → String → ConfirmRequest → Action T B S Answer
  unfolding confirm_admitted hold_part
  confirm_without_hold now request_id key req =
      confirm_admitted request_id key req (admit env now (hold_part req))

  unfoldable pub confirm : ℕ → String → String → ConfirmRequest → Action T B S Answer
  unfolding confirm_hold confirm_without_hold
  confirm now request_id key req =
      if not (req.hold_id == "")
      then confirm_hold key req
      else confirm_without_hold now request_id key req
