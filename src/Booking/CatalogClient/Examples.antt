-- ===== src/Booking/CatalogClient/Examples.antt =====
-- A Catalog with one dealership, whose answers come in two reads.
use unified_service_schedule.Common.{
  eqb, ◌≡◌, arith, refl, true, false, some, none, [], ◌∷◌, ◌==◌, if◌then◌else◌,
}
use unified_service_schedule.Booking.Hours.{OpeningHours, Snapshot}
use unified_service_schedule.Booking.CatalogClient.{Response, Http, hours_map, snapshot, get}
use unified_service_schedule.Booking.CatalogClient.Reading.{
  Reader, GotBefore, read_loop, read_loop_ends,
}
use unified_service_schedule.Booking.CatalogClient.Snapshots.{Vouched, snapshot-Vouched}

abbrev early : OpeningHours
early = record { weekday = 1; open_minutes = 420; close_minutes = 1080 }

abbrev late : OpeningHours
late = record { weekday = 1; open_minutes = 480; close_minutes = 1020 }

abbrev answer : Response
answer = record {
  status = 200;
  body =
      record { bytes = 91 ∷ []; is_error = false }
      ∷ record { bytes = 93 ∷ []; is_error = true }
      ∷ [];
}

abbrev missing : Response
missing = record { status = 404; body = [] }

abbrev http : Http
http = record {
  request = λ path. if path == "/customers/d/vehicles" then some missing else some answer;
  unmarshal_dealers = λ body. some (
      record {
        id = "north";
        name = "North Workshop";
        timezone = "UTC";
        opening_hours = early ∷ late ∷ [];
      }
      ∷ []);
  unmarshal_types = λ body. some (record { id = "oil" } ∷ []);
  decode_vehicles = λ body. some (record { id = "v"; customer_id = "c" } ∷ []);
}

get-reads : get http "/dealerships" ≡ some (91 ∷ 93 ∷ [])
unfolding get
get-reads = refl

-- The later of two entries of a day stands.
abbrev answered : Snapshot
answered = record {
  dealership_id = "north";
  timezone = "UTC";
  opening_hours = hours_map (early ∷ late ∷ []) (λ _. none);
  service_type_ok = true;
  vehicle_belongs = true;
}

snapshot-Vouched_example : Vouched http "north" "oil" "c" "v" answered
snapshot-Vouched_example =
    snapshot-Vouched http "north" "oil" "c" "v" answered (unfold snapshot in refl)

-- Two bytes at a time; the second read fails with the byte that it has.
abbrev pairs : Reader
pairs = record { size = λ k. 2; fails = λ k. eqb k 1; is_eager = λ k. false }

read_loop_ends_example :
    GotBefore pairs 0
      (91 ∷ 123 ∷ 125 ∷ 93 ∷ 10 ∷ [])
      (read_loop pairs 6 0 (91 ∷ 123 ∷ 125 ∷ 93 ∷ 10 ∷ []))
read_loop_ends_example = read_loop_ends pairs 6 0 (91 ∷ 123 ∷ 125 ∷ 93 ∷ 10 ∷ []) (omega arith)
