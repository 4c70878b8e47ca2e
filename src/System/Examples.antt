-- ===== src/System/Examples.antt =====
-- A hold at the dealership of the fixtures, through the listings of its Catalog.
use unified_service_schedule.Common.{[], ◌∷◌}
use unified_service_schedule.Mux.{post, Request}
use unified_service_schedule.Booking.Types.{HoldRequest}
use unified_service_schedule.Booking.Http.Server as Booking
use unified_service_schedule.Gateway.{forward_headers}
use unified_service_schedule.Gateway as Gateway
use unified_service_schedule.Occupancy as Occ
use unified_service_schedule.Technician as Tech
use unified_service_schedule.Technician.Client as TechDb
use unified_service_schedule.Technician.Server as TechServer
use unified_service_schedule.Bay as Bays
use unified_service_schedule.Bay.Client as BayDb
use unified_service_schedule.Bay.Server as BayServer
use unified_service_schedule.Booking.Store.Client as StoreDb
use unified_service_schedule.Booking.Fixture.{hold_request}
use unified_service_schedule.Catalog.Server as Catalog

-- The same request as a POST /holds without headers, whose body has been read.
abbrev posted : Request HoldRequest
posted = record { method = post; path = "holds" ∷ []; headers = λ _. []; body = hold_request }

abbrev forwarded : Request HoldRequest
forwarded = record posted { headers = forward_headers "g" posted.headers }
