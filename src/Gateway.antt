-- ===== src/Gateway.antt =====
-- The gateway: backend/services/gateway/main.go. The two services behind it are reached through
-- httputil's reverse proxy; what is modelled is the request that the proxy is given.
pub mod Forwarding
pub mod Services
mod Examples
use unified_service_schedule.Common.{
  ℕ, String, Bool, true, false, not, List, [], ◌∷◌, ◌==◌, if◌then◌else◌,
}
use unified_service_schedule.Mux.{
  Method, get, post, delete, options, Segment, literal, wildcard, Route, Found, found, no_method,
  no_path, lookup, Headers, get_header, set_header, Request,
}

-- The first half of forwardHeaders, on one request: both of its callers give it the same request
-- twice.
unfoldable pub copy_key : Headers → Headers
unfolding get_header set_header
copy_key h =
    let v = get_header "Idempotency-Key" h in
    if not (v == "") then set_header "Idempotency-Key" v h else h

-- `uuid` is newRequestID's.
unfoldable pub copy_request_id : String → Headers → Headers
unfolding get_header set_header
copy_request_id uuid h =
    let v = get_header "X-Request-Id" h in set_header "X-Request-Id" (if v == "" then uuid else v) h

unfoldable pub forward_headers : String → Headers → Headers
unfolding copy_key copy_request_id
forward_headers uuid h = copy_request_id uuid (copy_key h)

-- What becomes of a request: the proxy of a service is given it, or the gateway answers itself.
pub data Outcome (B : Type 0) : Type 0 where
  to_catalog to_booking : Request B → Outcome B
  answered : ℕ → String → Outcome B

pub data Target : Type 0 where
  catalog_target booking_target healthz : Target

abbrev catalog_pattern : List Segment → Route Target
catalog_pattern path = record { method = get; path = path; handler = catalog_target }

abbrev booking_pattern : Method → List Segment → Route Target
booking_pattern method path = record { method = method; path = path; handler = booking_target }

-- newMux
unfoldable pub routes : List (Route Target)
routes =
    catalog_pattern (literal "dealerships" ∷ [])
    ∷ catalog_pattern (literal "service-types" ∷ [])
    ∷ catalog_pattern (literal "customers" ∷ wildcard ∷ literal "vehicles" ∷ [])
    ∷ booking_pattern post (literal "holds" ∷ [])
    ∷ booking_pattern post (literal "appointments" ∷ [])
    ∷ booking_pattern get (literal "appointments" ∷ wildcard ∷ [])
    ∷ booking_pattern delete (literal "appointments" ∷ wildcard ∷ [])
    ∷ record { method = get; path = literal "healthz" ∷ []; handler = healthz }
    ∷ []

abbrev pub is_options : Method → Bool
is_options options = true
is_options _ = false

-- The response headers that corsWrap sets on every response.
unfoldable pub cors_headers : Headers
unfolding set_header
cors_headers = set_header "Access-Control-Allow-Methods" "GET, POST, DELETE, OPTIONS" (
    set_header "Access-Control-Allow-Headers" "Content-Type, Idempotency-Key, X-Request-Id"
      (set_header "Access-Control-Allow-Origin" "*" (λ key. [])))

module _ {B : Type 0} (uuid : String) where
  unfoldable pub catalog_route : Request B → Outcome B
  unfolding forward_headers
  catalog_route r = to_catalog (record r { headers = forward_headers uuid r.headers })

  unfoldable pub booking_route : Request B → Outcome B
  unfolding forward_headers
  booking_route r = to_booking (record r { headers = forward_headers uuid r.headers })

  unfoldable pub handle : Found Target → Request B → Outcome B
  unfolding catalog_route booking_route
  handle (found catalog_target vs) r = catalog_route r
  handle (found booking_target vs) r = booking_route r
  handle (found healthz vs) r = answered 200 "ok"
  handle no_method r = answered 405 "Method Not Allowed"
  handle no_path r = answered 404 "404 page not found"

  -- newMux(p).ServeHTTP
  unfoldable pub serve_mux : Request B → Outcome B
  unfolding handle routes lookup
  serve_mux r = handle (lookup routes r.method r.path) r

  -- corsWrap: a preflight is answered at once.
  unfoldable pub cors_wrap : (Request B → Outcome B) → Request B → Headers × Outcome B
  unfolding cors_headers
  cors_wrap next r = (cors_headers, (if is_options r.method then answered 204 "" else next r))

  -- What main serves.
  unfoldable pub serve : Request B → Headers × Outcome B
  unfolding cors_wrap serve_mux
  serve r = cors_wrap serve_mux r
