-- ===== src/Catalog/Wire.antt =====
-- The Catalog server behind the booking service's client, over a network without failures. The JSON
-- of encoding/json is a parameter, and so are the splitting of a path and the sizes of the reads.
use unified_service_schedule.Common.{
  ℕ, String, ◌≡◌, Bool, true, false, Option, none, some, List, [], ◌∷◌, ◌++◌, map,
}
use Prim.Native.String.{◌++◌ as append}
use unified_service_schedule.Mux.{get}
use unified_service_schedule.Booking.Hours as Booking
use unified_service_schedule.Booking.Hours.{Snapshot}
use unified_service_schedule.Booking.CatalogClient.{
  DealershipDto, ServiceTypeDto, VehicleDto, Read, Response, Http, is_empty,
}
use unified_service_schedule.Catalog.{
  Tables, OpeningHours, ServiceType, Vehicle, Dealership, no_fault,
}
use unified_service_schedule.Catalog.Server.{
  Reply, dealerships, service_types, vehicles, failed, text, aborted, list_dealerships,
  list_service_types, list_customer_vehicles, serve,
}
use unified_service_schedule.Catalog.Faults.{no_faults}

-- Reads that carry the bytes: each but the last has some, and io.EOF comes with the last.
pub data Delivered : List ℕ → List Read → Type 0 where
  last : (bs : List ℕ) → Delivered bs (record { bytes = bs; is_error = true } ∷ [])
  more :
      (bs rest : List ℕ) {rs : List Read}
      → is_empty bs ≡ false
      → Delivered rest rs
      → Delivered (bs ++ rest) (record { bytes = bs; is_error = false } ∷ rs)

-- The fields by which the client knows an entry.
abbrev pub hours_dto : OpeningHours → Booking.OpeningHours
hours_dto h = record {
  weekday = h.weekday;
  open_minutes = h.open_minutes;
  close_minutes = h.close_minutes;
}

abbrev pub dealer_dto : Dealership → DealershipDto
dealer_dto d = record {
  id = d.id;
  name = d.name;
  timezone = d.timezone;
  opening_hours = map hours_dto d.opening_hours;
}

abbrev pub type_dto : ServiceType → ServiceTypeDto
type_dto t = record { id = t.id }

abbrev pub vehicle_dto : Vehicle → VehicleDto
vehicle_dto v = record { id = v.id; customer_id = v.customer_id }

unfoldable pub status_of : Reply → ℕ
status_of (failed s m) = s
status_of (text s m) = s
status_of _ = 200

pub record Wire : Type 0 where
  pub path_of : String → List String
  pub encode : Reply → List ℕ
  pub deliver : List ℕ → List Read
  pub unmarshal_dealers : List ℕ → Option (List DealershipDto)
  pub unmarshal_types : List ℕ → Option (List ServiceTypeDto)
  pub decode_vehicles : List Read → Option (List VehicleDto)

-- What is relied on: the paths of the client reach the server in segments, a body comes in reads,
-- and the fields that the client names are read as they were written in the three listings, an absent
-- list as an empty one.
pub record IsFaithful (w : Wire) (text_le : String → String → Bool) (db : Tables)
    (customer : String) : Type 0 where
  pub dealerships_path : w.path_of "/dealerships" ≡ "dealerships" ∷ []
  pub types_path : w.path_of "/service-types" ≡ "service-types" ∷ []
  pub vehicles_path :
      w.path_of (append (append "/customers/" customer) "/vehicles")
      ≡ "customers" ∷ customer ∷ "vehicles" ∷ []
  pub delivers : (bs : List ℕ) → Delivered bs (w.deliver bs)
  pub dealers_read :
      (ds : List Dealership)
      → list_dealerships text_le db no_fault ≡ dealerships ds
      → w.unmarshal_dealers (w.encode (dealerships ds)) ≡ some (map dealer_dto ds)
  pub types_read :
      (ts : List ServiceType)
      → list_service_types text_le db no_fault ≡ service_types ts
      → w.unmarshal_types (w.encode (service_types ts)) ≡ some (map type_dto ts)
  pub vehicles_read :
      (vs : List Vehicle) {rs : List Read}
      → list_customer_vehicles text_le db no_faults customer ≡ vehicles vs
      → Delivered (w.encode (vehicles vs)) rs
      → w.decode_vehicles rs ≡ some (map vehicle_dto vs)

-- The response of the server; a handler that panics breaks the connection.
unfoldable pub respond : Wire → Reply → Option Response
unfolding status_of
respond w aborted = none
respond w r = some (record { status = status_of r; body = w.deliver (w.encode r) })

module _ (text_le : String → String → Bool) (db : Tables) (w : Wire) where
  -- The client's surroundings.
  abbrev pub served : Http
  served = record {
    request = λ path. respond w (serve text_le db no_faults get (w.path_of path));
    unmarshal_dealers = w.unmarshal_dealers;
    unmarshal_types = w.unmarshal_types;
    decode_vehicles = w.decode_vehicles;
  }
