-- ===== src/System/Edge.antt =====
-- POST /holds from the gateway to the Catalog's tables.
use unified_service_schedule.Common.{ℕ, String, ◌≡◌, Option, some, ok}
use unified_service_schedule.Technician.Client as Technician
use unified_service_schedule.Bay.Client as Bay
use unified_service_schedule.Booking.Types.{HoldRequest, ConfirmRequest, Appointment}
use unified_service_schedule.Booking.Hours.{Zones}
use unified_service_schedule.Booking.Clients.{TechClient, BayClient, StoreClient, Env, World}
use unified_service_schedule.Booking.Store.Client as Store
use unified_service_schedule.Booking.Service.{create_hold}
use unified_service_schedule.Booking.Http.Server as Booking
use unified_service_schedule.Catalog.{Tables}
use unified_service_schedule.Catalog.Wire.{Wire}
use unified_service_schedule.Gateway as Gateway
use unified_service_schedule.System.{HeldByTables}

module _ {T B S Body : Type 0} (tech : TechClient T) (bay : BayClient B) (store : StoreClient S)
    (env : Env) (read_hold : Body → Option HoldRequest)
    (read_confirm : Body → Option ConfirmRequest) (now : ℕ) (uuid : String) where
  -- The hold of a request that was read.
  Held : Option HoldRequest → World T B S → Appointment → Type 0
  Held body w appt =
      (req : HoldRequest) × (rid : String) × (body ≡ some req)
      × ((create_hold tech bay store env now rid req w).0 ≡ ok appt)

-- A hold of the system, in the terms of the Catalog's tables.
abbrev pub TablesHold : Tables → Zones → ℕ → Option HoldRequest → Appointment → Type 0
TablesHold db zones now body appt =
    (req : HoldRequest) × (body ≡ some req) × HeldByTables db zones now req appt
