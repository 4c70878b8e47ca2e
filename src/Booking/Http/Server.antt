-- ===== src/Booking/Http/Server.antt =====
-- The routes of the booking service, and what its handlers take from a request.
use unified_service_schedule.Common.{ℕ, String, Option, List, [], ◌∷◌}
use unified_service_schedule.Mux.{
  get, post, delete, literal, wildcard, Route, Found, found, no_method, no_path, lookup, get_header,
  Request,
}
use unified_service_schedule.Booking.Types.{HoldRequest, ConfirmRequest}
use unified_service_schedule.Booking.Clients.{TechClient, BayClient, StoreClient, Env}
use unified_service_schedule.Booking.Saga.{Action, pure}
use unified_service_schedule.Booking.Http.{
  Reply, bare, post_hold, post_appointment, get_by_id, delete_by_id,
}

-- The handlers that NewHandler registers.
pub data Endpoint : Type 0 where
  on_hold on_confirm on_get on_cancel on_healthz : Endpoint

unfoldable pub routes : List (Route Endpoint)
routes =
    record { method = post; path = literal "holds" ∷ []; handler = on_hold }
    ∷ record { method = post; path = literal "appointments" ∷ []; handler = on_confirm }
    ∷ record { method = get; path = literal "appointments" ∷ wildcard ∷ []; handler = on_get }
    ∷ record { method = delete; path = literal "appointments" ∷ wildcard ∷ []; handler = on_cancel }
    ∷ record { method = get; path = literal "healthz" ∷ []; handler = on_healthz }
    ∷ []

-- r.PathValue of the only wildcard
abbrev path_value : List String → String
path_value [] = ""
path_value (v ∷ vs) = v

-- `read_hold` and `read_confirm` are the JSON decoder on the body.
module _ {T B S Body : Type 0} (tech : TechClient T) (bay : BayClient B) (store : StoreClient S)
    (env : Env) (read_hold : Body → Option HoldRequest)
    (read_confirm : Body → Option ConfirmRequest) where
  unfoldable pub handle : ℕ → String → Found Endpoint → Request Body → Action T B S Reply
  handle now uuid (found on_hold vs) r =
      post_hold tech bay store env now uuid (get_header "X-Request-Id" r.headers)
        (get_header "Idempotency-Key" r.headers) (read_hold r.body)
  handle now uuid (found on_confirm vs) r =
      post_appointment tech bay store env now uuid (get_header "X-Request-Id" r.headers)
        (get_header "Idempotency-Key" r.headers) (read_confirm r.body)
  handle now uuid (found on_get vs) r = get_by_id tech bay store env (path_value vs)
  handle now uuid (found on_cancel vs) r = delete_by_id tech bay store env (path_value vs)
  handle now uuid (found on_healthz vs) r = pure (bare 200)
  handle now uuid no_method r = pure (bare 405)
  handle now uuid no_path r = pure (bare 404)

  unfoldable pub serve : ℕ → String → Request Body → Action T B S Reply
  unfolding handle routes
  serve now uuid r = handle now uuid (lookup routes r.method r.path) r
