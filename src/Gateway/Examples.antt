-- ===== src/Gateway/Examples.antt =====
-- A request that brings an Idempotency-Key twice and no X-Request-Id.
use unified_service_schedule.Common.{◌≡◌, refl, differ, none, some, [], ◌∷◌, ◌==◌, if◌then◌else◌}
use unified_service_schedule.Mux.{options, post, Headers, Request}
use unified_service_schedule.Booking.Types.{HoldRequest}
use unified_service_schedule.Booking.Http.Server as Booking
use unified_service_schedule.Booking.Fixture.{tech, bay, store, env, hold_request}
use unified_service_schedule.Gateway.{forward_headers, to_booking, answered, serve}
use unified_service_schedule.Gateway.Forwarding.{Handled, serve-Handled}
use unified_service_schedule.Gateway.Services.{booking_behind_gateway}

abbrev headers : Headers
headers = λ name. if name == "Idempotency-Key" then "k" ∷ "l" ∷ [] else []

-- The body is a hold request that has been read.
abbrev request : Request HoldRequest
request = record { method = post; path = "holds" ∷ []; headers = headers; body = hold_request }

abbrev forwarded : Request HoldRequest
forwarded = record request { headers = forward_headers "g" headers }

forwarded-key : forward_headers "g" headers "Idempotency-Key" ≡ "k" ∷ []
unfolding forward_headers
forwarded-key = refl

forwarded-id : forward_headers "g" headers "X-Request-Id" ≡ "g" ∷ []
unfolding forward_headers
forwarded-id = refl

preflight : (serve "g" (record request { method = options })).1 ≡ answered 204 ""
unfolding serve
preflight = refl

request-serve : (serve "g" request).1 ≡ to_booking forwarded
unfolding serve
request-serve = refl

serve-Handled_example : Handled "g" request (serve "g" request).1
serve-Handled_example = serve-Handled "g" request

booking_behind_gateway_example :
    Booking.serve tech bay store env some (λ _. none) 5 "own" forwarded
    ≡ Booking.serve tech bay store env some (λ _. none) 5 "g" request
booking_behind_gateway_example =
    booking_behind_gateway tech bay store env some (λ _. none) 5 "g" "own" (differ "g" "" refl)
      request forwarded request-serve
