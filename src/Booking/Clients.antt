-- ===== src/Booking/Clients.antt =====
-- What the booking service calls: the store (the interface `store` of service.go), the two gRPC
-- clients (Allocators of saga.go), the Catalog, and what it takes from Go's libraries. Each
-- component has a state of its own; a call answers and leaves the component's next state.
use unified_service_schedule.Common.{ℕ, String, Bool, Option, List, Result}
use unified_service_schedule.Rpc.{Code}
use unified_service_schedule.Technician.Server as TechServer
use unified_service_schedule.Bay.Server as BayServer
use unified_service_schedule.Booking.Types.{AppointmentRow, StoreError}
use unified_service_schedule.Booking.Hours.{Zones, Snapshot}
use unified_service_schedule.Booking.CatalogClient.{CatalogError}

pub record TechClient (T : Type 0) : Type 0 where
  pub reserve : TechServer.ReserveRequest → T → Result Code TechServer.ReserveResponse × T
  pub confirm : String → T → Result Code (Unit {0}) × T
  pub release : String → T → Result Code (Unit {0}) × T

pub record BayClient (B : Type 0) : Type 0 where
  pub reserve : BayServer.ReserveRequest → B → Result Code BayServer.ReserveResponse × B
  pub confirm : String → B → Result Code (Unit {0}) × B
  pub release : String → B → Result Code (Unit {0}) × B

pub record StoreClient (S : Type 0) : Type 0 where
  pub insert_held : AppointmentRow → S → Result StoreError AppointmentRow × S
  pub get : String → S → Result StoreError AppointmentRow × S
  pub promote : String → String → String → S → Result StoreError AppointmentRow × S
  pub get_confirmed_by_idempotency_key : String → S → Result StoreError (Option AppointmentRow) × S
  pub cancel : String → S → Result StoreError Bool × S
  pub sweep_batch : ℕ → S → Result StoreError (List AppointmentRow) × S
  pub list_cancelled_needing_release : ℕ → S → Result StoreError (List AppointmentRow) × S
  pub clear_occupation_ids : String → S → Result StoreError (Unit {0}) × S

-- `parse_start` is time.Parse with RFC3339Nano, `sha256` the digest in hexadecimal.
pub record Env : Type 0 where
  pub snapshot : String → String → String → String → Result CatalogError Snapshot
  pub zones : Zones
  pub parse_start : String → Option ℕ
  pub sha256 : List ℕ → String

pub record World (T B S : Type 0) : Type 0 where
  pub tech : T
  pub bay : B
  pub store : S
