-- ===== src/Booking/Http/Replies.antt =====
-- What the replies of POST /holds, in backend/services/booking/http.go, tell of the claims.
use unified_service_schedule.Common.{
  ℕ, String, ◌≡◌, ◌≢◌, ◌⊎◌, arith, eq_iff, refl, Option, none, some, ◌==◌, Bool-cases, inl, inr,
  Result, ok, err,
}
use unified_service_schedule.Booking.Types.{
  BookingError, invalid, idempotency_conflict, not_found, unavailable, other, HoldRequest,
  Appointment,
}
use unified_service_schedule.Booking.Clients.{TechClient, BayClient, StoreClient, Env, World}
use unified_service_schedule.Booking.Laws.{InsertsAsGiven}
use unified_service_schedule.Booking.Saga.Compensation.{TechAccounts, BayAccounts, NoNewClaims}
use unified_service_schedule.Booking.Service.{create_hold}
use unified_service_schedule.Booking.Service.Holds.{FailsClean, create_hold_compensates}
use unified_service_schedule.Booking.Http.{
  Reply, appointment, failed, bare, map_error, reply_with, hold_decoded, post_hold, request_id,
}

-- The status and the name under which the interface reports an error.
pub data ErrorName : BookingError → ℕ → String → Type 0 where
  refused : ErrorName invalid 400 "invalid"
  missing : ErrorName not_found 404 "not_found"
  taken : ErrorName unavailable 409 "unavailable"
  conflict : ErrorName idempotency_conflict 409 "idempotency_conflict"
  internal : ErrorName other 500 "internal"

module _ {T B S : Type 0} (tech : TechClient T) (bay : BayClient B) (store : StoreClient S)
    (env : Env) (ta : TechAccounts tech) (ba : BayAccounts bay) (given : InsertsAsGiven store) where
  -- The hold of the body, and what CreateHold has made of it.
  abbrev Tried :
      ℕ → Option HoldRequest → World T B S → Result BookingError Appointment → World T B S → Type 0
  Tried now body w r v =
      (req : HoldRequest) × (rid : String) × (body ≡ some req)
      × (create_hold tech bay store env now rid req w ≡ (r, v))

  -- An error is that of CreateHold, or an invalid request, with a key or a body that was not read,
  -- which has changed nothing.
  abbrev IsError : ℕ → String → Option HoldRequest → World T B S → ℕ → String → World T B S → Type 0
  IsError now key body w status name v =
      (((key ≢ "") ⊎ (body ≡ none)) × ErrorName invalid status name × (v ≡ w))
      ⊎ ((key ≡ "") × ((e : BookingError) × Tried now body w (err e) v × ErrorName e status name))

  -- An appointment is answered with 201, to a request without a key whose hold was made; any other
  -- answer is an error by its name, and has left no claim.
  unfoldable pub CleanOrCreated :
      ℕ → String → Option HoldRequest → World T B S → Reply × World T B S → Type 0
  CleanOrCreated now key body w (appointment status appt, v) =
      (status ≡ 201) × (key ≡ "") × Tried now body w (ok appt) v
  CleanOrCreated now key body w (failed status name, v) =
      IsError now key body w status name v × NoNewClaims tech bay ta ba w v
  CleanOrCreated now key body w (bare status, v) = ⊥

  unchanged : (w : World T B S) → NoNewClaims tech bay ta ba w w
  unchanged w = record { tech_claims = λ x h. h; bay_claims = λ x h. h }

  map_error-Clean :
      (now : ℕ) (key : String) (body : Option HoldRequest) (e : BookingError) (w v : World T B S)
      → key ≡ ""
      → Tried now body w (err e) v
      → NoNewClaims tech bay ta ba w v
      → CleanOrCreated now key body w (map_error e, v)
  unfolding map_error CleanOrCreated
  map_error-Clean now key body invalid w v k t c = (inr (k, (_, t, refused)), c)
  map_error-Clean now key body idempotency_conflict w v k t c = (inr (k, (_, t, conflict)), c)
  map_error-Clean now key body not_found w v k t c = (inr (k, (_, t, missing)), c)
  map_error-Clean now key body unavailable w v k t c = (inr (k, (_, t, taken)), c)
  map_error-Clean now key body other w v k t c = (inr (k, (_, t, internal)), c)

  reply_with-Clean :
      (now : ℕ) (key : String) (body : Option HoldRequest) (w : World T B S)
      (r : Result BookingError Appointment) (v : World T B S)
      → key ≡ ""
      → Tried now body w r v
      → FailsClean tech bay store env ta ba given w (r, v)
      → CleanOrCreated now key body w (reply_with 201 r, v)
  unfolding reply_with CleanOrCreated
  reply_with-Clean now key body w (err e) v k t c = map_error-Clean now key body e w v k t c
  reply_with-Clean now key body w (ok appt) v k t c = (refl, k, t)

  hold_decoded-Clean :
      (now : ℕ) (key rid : String) (body : Option HoldRequest) (w : World T B S)
      → key ≡ ""
      → CleanOrCreated now key body w (hold_decoded tech bay store env now rid body w)
  unfolding hold_decoded CleanOrCreated
  hold_decoded-Clean now key rid none w k = (inl (inr refl, refused, refl), unchanged w)
  hold_decoded-Clean now key rid (some req) w k =
      let (r, v) = create_hold tech bay store env now rid req w in
      reply_with-Clean now key (some req) w r v k (req, rid, refl, refl)
        (create_hold_compensates tech bay store env ta ba given now rid req w)

  -- POST /holds replies with 201 and the appointment of the hold that CreateHold has made for the
  -- body, only to a request without an Idempotency-Key; or with the error of CreateHold under its
  -- status and name; or, to a request with a key or with a body that cannot be read, with 400 and
  -- nothing has changed. If the allocators' calls are reliable, then no claim lives at either
  -- allocator after an error that did not live before.
  pub post_hold-CleanOrCreated :
      (now : ℕ) (uuid header key : String) (body : Option HoldRequest) (w : World T B S)
      → CleanOrCreated now key body w (post_hold tech bay store env now uuid header key body w)
  unfolding post_hold CleanOrCreated
  post_hold-CleanOrCreated now uuid header key body w = elim (Bool-cases (key == "")) [
    | inl k ↦
        rw k (hold_decoded-Clean now key (request_id header uuid) body w ((eq_iff key "").0 k))
    | inr k ↦
        let given_key : key ≢ "" = λ p. ground (arith, p, k, eq_iff key "") in
        rw k (inl (inl given_key, refused, refl), unchanged w)
  ]
