-- ===== src/Booking/Http.antt =====
-- The HTTP layer of the booking service: backend/services/booking/http.go. The reading of a body as
-- JSON is a parameter, by its outcome, and so is the id that requestID makes; Server has the routes.
pub mod Replies
pub mod Server
use unified_service_schedule.Common.{
  ℕ, String, Option, none, some, not, ◌==◌, if◌then◌else◌, Result, ok, err,
}
use unified_service_schedule.Booking.Types.{
  BookingError, unavailable, invalid, idempotency_conflict, not_found, other, HoldRequest,
  ConfirmRequest, Appointment,
}
use unified_service_schedule.Booking.Clients.{TechClient, BayClient, StoreClient, Env, World}
use unified_service_schedule.Booking.Saga.{Action, ◌>>=◌, pure}
use unified_service_schedule.Booking.Service.{create_hold}
use unified_service_schedule.Booking.Confirm.{Answer, confirm}
use unified_service_schedule.Booking.Recovery.{get_appointment, cancel}

-- What is written to the client: writeJSON of an appointment, writeError with the error's name, or
-- a status alone.
pub data Reply : Type 0 where
  appointment : ℕ → Appointment → Reply
  failed : ℕ → String → Reply
  bare : ℕ → Reply

unfoldable pub map_error : BookingError → Reply
map_error invalid = failed 400 "invalid"
map_error idempotency_conflict = failed 409 "idempotency_conflict"
map_error not_found = failed 404 "not_found"
map_error unavailable = failed 409 "unavailable"
map_error other = failed 500 "internal"

-- The header X-Request-Id, or a new id.
unfoldable pub request_id : String → String → String
request_id header uuid = if not (header == "") then header else uuid

unfoldable pub reply_with : ℕ → Result BookingError Appointment → Reply
unfolding map_error
reply_with status (err e) = map_error e
reply_with status (ok appt) = appointment status appt

unfoldable pub reply_confirmed : Answer → Reply
unfolding map_error
reply_confirmed (err e) = map_error e
reply_confirmed (ok (appt, status)) = appointment status appt

unfoldable pub reply_cancelled : Result BookingError (Unit {0}) → Reply
unfolding map_error
reply_cancelled (err e) = map_error e
reply_cancelled (ok _) = bare 204

module _ {T B S : Type 0} (tech : TechClient T) (bay : BayClient B) (store : StoreClient S)
    (env : Env) where
  unfoldable pub hold_decoded : ℕ → String → Option HoldRequest → Action T B S Reply
  unfolding reply_with
  hold_decoded now rid none = pure (failed 400 "invalid")
  hold_decoded now rid (some req) = do
    r ← create_hold tech bay store env now rid req
    pure (reply_with 201 r)

  -- POST /holds: `key` is the header Idempotency-Key.
  unfoldable pub post_hold : ℕ → String → String → String → Option HoldRequest → Action T B S Reply
  unfolding hold_decoded request_id
  post_hold now uuid header key body =
      if not (key == "")
      then pure (failed 400 "invalid")
      else hold_decoded now (request_id header uuid) body

  -- POST /appointments
  unfoldable pub post_appointment :
      ℕ → String → String → String → Option ConfirmRequest → Action T B S Reply
  unfolding reply_confirmed request_id
  post_appointment now uuid header key none = pure (failed 400 "invalid")
  post_appointment now uuid header key (some req) = do
    r ← confirm tech bay store env now (request_id header uuid) key req
    pure (reply_confirmed r)

  -- GET /appointments/{id}
  unfoldable pub get_by_id : String → Action T B S Reply
  unfolding reply_with
  get_by_id id = do r ← get_appointment tech bay store id; pure (reply_with 200 r)

  -- DELETE /appointments/{id}
  unfoldable pub delete_by_id : String → Action T B S Reply
  unfolding reply_cancelled
  delete_by_id id = do r ← cancel tech bay store id; pure (reply_cancelled r)
