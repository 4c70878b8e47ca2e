-- ===== src/System.antt =====
-- The booking service with the Catalog, the allocators and the store of this repository.
pub mod Edge
mod Examples
use unified_service_schedule.Common.{
  ℕ, ◌+◌, ◌*◌, ◌<◌, ◌≤◌, String, ◌≡◌, ◌≢◌, refl, Bool, true, ◌&&◌, Option, none, List, ◌==◌, In,
  any, Result, Bool-cases, inl, inr,
}
use unified_service_schedule.Occupancy.{minute}
use unified_service_schedule.Technician.{Postgres, Roster}
use unified_service_schedule.Technician.Client as Technician
use unified_service_schedule.Bay.{ServiceBay}
use unified_service_schedule.Bay.Client as Bay
use unified_service_schedule.Booking.Types.{BookingError, HoldRequest, Appointment}
use unified_service_schedule.Booking.Hours.{Zones, Snapshot, iso_weekday}
use unified_service_schedule.Booking.Hours as Hours
use unified_service_schedule.Booking.Clients.{Env, World}
use unified_service_schedule.Booking.CatalogClient.{snapshot}
use unified_service_schedule.Booking.Store.Client as Store
use unified_service_schedule.Booking.Service.{create_hold}
use unified_service_schedule.Booking.Service.Hours.{HeldInHours}
use unified_service_schedule.Catalog.{Tables, DealershipRow, HoursRow, ServiceType, Vehicle}
use unified_service_schedule.Catalog.Wire.{Wire, hours_dto, served}
use unified_service_schedule.Catalog.Served.{known}

-- The surroundings of the service, with the Catalog server behind its client.
abbrev pub env_of :
    (String → String → Bool) → Tables → Wire → Zones → (String → Option ℕ) → (List ℕ → String) → Env
env_of text_le db wire zones parse_start sha256 = record {
  snapshot = snapshot (served text_le db wire);
  zones = zones;
  parse_start = parse_start;
  sha256 = sha256;
}

-- The rows of the Catalog that a hold rests on.
pub record HeldByTables (db : Tables) (zones : Zones) (now : ℕ) (req : HoldRequest)
    (appt : Appointment) : Type 0 where
  pub dealership : DealershipRow
  pub dealership_listed : In dealership db.dealership
  pub dealership_asked : dealership.id ≡ req.dealership_id
  pub day : HoursRow
  pub day_listed : In day db.opening_hours
  pub day_of : day.dealership_id ≡ req.dealership_id
  pub weekday : day.hours.weekday ≡ iso_weekday zones dealership.timezone appt.start_at
  pub service_type : ServiceType
  pub service_listed : In service_type db.service_type
  pub service_asked : service_type.id ≡ req.service_type_id
  pub car : Vehicle
  pub car_listed : In car db.vehicle
  pub car_owner : car.customer_id ≡ req.customer_id
  pub car_asked : car.id ≡ req.vehicle_id
  pub future : now < appt.start_at
  pub opened :
      zones.midnight dealership.timezone appt.start_at + day.hours.open_minutes * minute
      ≤ appt.start_at
  pub proper : appt.start_at < appt.end_at
  pub closed :
      appt.end_at
      ≤ zones.midnight dealership.timezone appt.start_at + day.hours.close_minutes * minute

module _ (pg : Postgres) (ro : Roster) (hashtext : String → ℕ) (bays : List ServiceBay)
    (tech_uuid bay_uuid row_uuid : ℕ → String) (text_le : String → String → Bool) (db : Tables)
    (wire : Wire) (zones : Zones) (parse_start : String → Option ℕ) (sha256 : List ℕ → String) where
  -- CreateHold of the whole system.
  abbrev pub system_create_hold :
      ℕ
      → String
      → HoldRequest
      → World Technician.Db Bay.Db Store.Db
      → Result BookingError Appointment × World Technician.Db Bay.Db Store.Db
  system_create_hold now rid req w =
      create_hold (Technician.client pg ro tech_uuid) (Bay.client hashtext bays bay_uuid)
        (Store.client row_uuid) (env_of text_le db wire zones parse_start sha256) now rid req w
