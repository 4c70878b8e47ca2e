-- ===== src/Booking/Fixture.antt =====
-- For the tests: a booking service on the servers of this repository, and the components after one
-- hold.
use unified_service_schedule.Common.{
  ℕ, ◌*◌, ◌≡◌, String, true, none, some, [], ◌∷◌, ok, refl, differ, least,
}
use unified_service_schedule.Occupancy.{
  Table, OccRow, minute, insert, claims, confirm_row, update_confirmed, delete_expired,
  hold_expired,
}
use unified_service_schedule.Occupancy as Occ
use unified_service_schedule.Occupancy.Claim.{claim_loop, claim_once}
use unified_service_schedule.Technician as Tech
use unified_service_schedule.Technician.Fixture.{clocks, roster}
use unified_service_schedule.Technician.Client as TechDb
use unified_service_schedule.Bay as Bays
use unified_service_schedule.Bay.Fixture.{hash, bays}
use unified_service_schedule.Bay.Client as BayDb
use unified_service_schedule.Booking.Types.{held, AppointmentRow, HoldRequest, Appointment}
use unified_service_schedule.Booking.Hours.{OpeningHours, Snapshot}
use unified_service_schedule.Booking.Clients.{TechClient, BayClient, StoreClient, Env, World}
use unified_service_schedule.Booking.Store.Client as StoreDb
use unified_service_schedule.Booking.Service.{create_hold}
use unified_service_schedule.Booking.Service.{admit}
use unified_service_schedule.Booking.Hours.{within_hours, latest_end}
use unified_service_schedule.Booking.Saga.{reserve_saga}
use unified_service_schedule.Booking.Saga.Compensation.{TechAccounts, BayAccounts}
use unified_service_schedule.Booking.Confirm.Compensation.{TechConfirming, BayConfirming}
use unified_service_schedule.Booking.Laws.{InsertsAsGiven}
use unified_service_schedule.Technician.Server as TechServer
use unified_service_schedule.Bay.Server as BayServer
use unified_service_schedule.Booking.Store.{insert_held}

abbrev pub tech_uuid : ℕ → String
tech_uuid n = "t1"

abbrev pub bay_uuid : ℕ → String
bay_uuid n = "b1"

abbrev pub row_uuid : ℕ → String
row_uuid n = "a1"

abbrev pub tech : TechClient TechDb.Db
tech = TechDb.client clocks roster tech_uuid

abbrev pub bay : BayClient BayDb.Db
bay = BayDb.client hash bays bay_uuid

abbrev pub store : StoreClient StoreDb.Db
store = StoreDb.client row_uuid

-- Open from eight to six.
abbrev pub open_day : OpeningHours
open_day = record { weekday = 1; open_minutes = 480; close_minutes = 1080 }

abbrev pub north : Snapshot
north = record {
  dealership_id = "north";
  timezone = "UTC";
  opening_hours = λ d. some open_day;
  service_type_ok = true;
  vehicle_belongs = true;
}

abbrev pub env : Env
env = record {
  snapshot = λ d s c v. ok north;
  zones = record { known = λ z. true; weekday = λ z t. 1; midnight = λ z t. 0 };
  parse_start = λ s. some (570 * minute);
  sha256 = λ xs. "digest";
}

abbrev pub idle : World TechDb.Db BayDb.Db StoreDb.Db
idle = record {
  tech = record { table = []; clock = 5; made = 0 };
  bay = record { table = []; clock = 5; made = 0 };
  store = record { rows = []; clock = 5; made = 0 };
}

abbrev pub hold_request : HoldRequest
hold_request = record {
  dealership_id = "north";
  customer_id = "c";
  vehicle_id = "v";
  service_type_id = "oil";
  start = "09:30";
}

abbrev pub hold : Appointment
hold = record {
  id = "a1";
  dealership_id = "north";
  customer_id = "c";
  vehicle_id = "v";
  service_type_id = "oil";
  start_at = 570 * minute;
  end_at = 600 * minute;
  status = held;
  hold_expires_at = some 120000005;
  technician_id = "ann";
  service_bay_id = "lift";
  tech_occupation = "t1";
  bay_occupation_id = "b1";
}

-- The row behind it.
abbrev pub row : AppointmentRow
row = record {
  id = "a1";
  dealership_id = "north";
  customer_id = "c";
  vehicle_id = "v";
  service_type_id = "oil";
  technician_id = some "ann";
  service_bay_id = some "lift";
  tech_occupation_id = some "t1";
  bay_occupation_id = some "b1";
  start_at = 570 * minute;
  end_at = 600 * minute;
  status = held;
  hold_expires_at = some 120000005;
  idempotency_key = none;
  request_fingerprint = none;
}

abbrev pub occupation : String → String → OccRow
occupation id resource = record {
  id = id;
  resource_id = resource;
  start_at = 570 * minute;
  end_at = 600 * minute;
  status = Occ.held;
  hold_expires_at = some 120000005;
}

-- The components after the hold, at the clock of the allocators.
abbrev pub with_hold : ℕ → AppointmentRow → World TechDb.Db BayDb.Db StoreDb.Db
with_hold clock row = record {
  tech = record { table = occupation "t1" "ann" ∷ []; clock = clock; made = 1 };
  bay = record { table = occupation "b1" "lift" ∷ []; clock = clock; made = 1 };
  store = record { rows = row ∷ []; clock = clock; made = 1 };
}

create_hold-idle :
    create_hold tech bay store env 5 "r" hold_request idle ≡ (ok hold, with_hold 5 row)
unfolding create_hold admit within_hours reserve_saga latest_end TechDb.client
    TechServer.handle_reserve Tech.reserve claim_loop claim_once least Occ.is_busy insert
    BayDb.client BayServer.handle_reserve Bays.reserve StoreDb.client insert_held claims
create_hold-idle = refl

pub store-InsertsAsGiven : InsertsAsGiven store
store-InsertsAsGiven = StoreDb.client-InsertsAsGiven row_uuid

pub tech-Confirming : TechConfirming tech
tech-Confirming =
    (TechDb.technician_keeps_accounts clocks roster tech_uuid (λ n. differ "t1" "" refl)).0

pub bay-Confirming : BayConfirming bay
bay-Confirming = (BayDb.bay_keeps_accounts hash bays bay_uuid (λ n. differ "b1" "" refl)).0

abbrev pub tech_accounts : TechAccounts tech
tech_accounts = tech-Confirming.reliable

abbrev pub bay_accounts : BayAccounts bay
bay_accounts = bay-Confirming.reliable
