-- ===== src/Gateway/Services.antt =====
-- The booking service behind the gateway.
use unified_service_schedule.Common.{
  ℕ, String, ◌≡◌, ◌≢◌, inl, inr, refl, ap, ◌∙◌, false, Option, none, some, ◌==◌, eq_iff, arith,
  if◌then◌else◌, Bool-cases,
}
use unified_service_schedule.Mux.{Found, found, no_method, no_path, lookup, Request}
use unified_service_schedule.Booking.Types.{HoldRequest, ConfirmRequest}
use unified_service_schedule.Booking.Clients.{TechClient, BayClient, StoreClient, Env}
use unified_service_schedule.Booking.Http.{request_id, post_hold, post_appointment}
use unified_service_schedule.Booking.Http.Server.{
  Endpoint, on_hold, on_confirm, on_get, on_cancel, on_healthz, routes, handle,
}
use unified_service_schedule.Booking.Http.Server as Booking
use unified_service_schedule.Gateway.{to_booking, serve}
use unified_service_schedule.Gateway.Forwarding.{Forwards, Handled, serve-Handled}

-- The id that the booking service takes from the forwarded request is the one that it takes from the
-- original, with the gateway's new id for its own.
request_id-forwarded :
    (header uuid uuid' : String)
    → uuid ≢ ""
    → request_id (if header == "" then uuid else header) uuid' ≡ request_id header uuid
unfolding request_id
request_id-forwarded header uuid uuid' h = elim (Bool-cases (header == "")) [
  | inl e ↦ let given : (uuid == "") ≡ false = ground (arith, eq_iff uuid "") in rw (e, given) refl
  | inr e ↦ rw (e, e) refl
]

module _ {T B S Body : Type 0} (tech : TechClient T) (bay : BayClient B) (store : StoreClient S)
    (env : Env) (read_hold : Body → Option HoldRequest)
    (read_confirm : Body → Option ConfirmRequest) (now : ℕ) (uuid uuid' : String)
    (given : uuid ≢ "") where
  post_hold-id :
      (h h' key : String) (body : Option HoldRequest)
      → request_id h' uuid' ≡ request_id h uuid
      → post_hold tech bay store env now uuid' h' key body
        ≡ post_hold tech bay store env now uuid h key body
  unfolding post_hold
  post_hold-id h h' key body e = rw e refl

  post_appointment-id :
      (h h' key : String) (body : Option ConfirmRequest)
      → request_id h' uuid' ≡ request_id h uuid
      → post_appointment tech bay store env now uuid' h' key body
        ≡ post_appointment tech bay store env now uuid h key body
  unfolding post_appointment
  post_appointment-id h h' key none e = refl
  post_appointment-id h h' key (some req) e = rw e refl

  handle-forwarded :
      (r q : Request Body) (f : Found Endpoint)
      → Forwards uuid r q
      → handle tech bay store env read_hold read_confirm now uuid' f q
        ≡ handle tech bay store env read_hold read_confirm now uuid f r
  unfolding handle
  handle-forwarded r q (found on_hold vs) w =
      rw (w.key, w.body)
        (post_hold-id _ _ _ _
          (ap (λ h. request_id h uuid') w.request_id ∙ request_id-forwarded _ uuid uuid' given))
  handle-forwarded r q (found on_confirm vs) w =
      rw (w.key, w.body)
        (post_appointment-id _ _ _ _
          (ap (λ h. request_id h uuid') w.request_id ∙ request_id-forwarded _ uuid uuid' given))
  handle-forwarded r q (found on_get vs) w = refl
  handle-forwarded r q (found on_cancel vs) w = refl
  handle-forwarded r q (found on_healthz vs) w = refl
  handle-forwarded r q no_method w = refl
  handle-forwarded r q no_path w = refl

  -- The booking service does with a request that the gateway passes on what it does with the request
  -- itself, with the gateway's new request id in place of its own: the gateway changes neither a
  -- reply nor a state.
  pub booking_behind_gateway :
      (r q : Request Body)
      → (serve uuid r).1 ≡ to_booking q
      → Booking.serve tech bay store env read_hold read_confirm now uuid' q
        ≡ Booking.serve tech bay store env read_hold read_confirm now uuid r
  unfolding Booking.serve
  booking_behind_gateway r q e =
      let (w, _, _) : Handled uuid r (to_booking q) = rw e at (serve-Handled uuid r) in
      ap
        (λ m. handle tech bay store env read_hold read_confirm now uuid' (lookup routes m q.path) q)
        w.method
      ∙ ap
          (λ p.
            handle tech bay store env read_hold read_confirm now uuid' (lookup routes r.method p) q)
          w.path
      ∙ handle-forwarded r q (lookup routes r.method r.path) w
