-- ===== src/Catalog/Server.antt =====
-- The handlers of catalog.go and their routes.
use unified_service_schedule.Mux.{
  Method, get, literal, wildcard, Route, Found, found, no_method, no_path, lookup,
}
use unified_service_schedule.Common.{
  ℕ, String, Bool, not, ◌&&◌, ◌||◌, Option, none, some, List, [], ◌∷◌, ◌==◌, any, select, sort_by,
  if◌then◌else◌,
}
use unified_service_schedule.Catalog.{
  Tables, Joined, Dealership, ServiceType, Vehicle, weekday_le, left_join, Fault, Cursor, query,
  Groups, no_groups, scan_joined, collect,
}

-- writeJSON of a listing, writeError with its message, the text "ok", or a handler that panics.
pub data Reply : Type 0 where
  dealerships : List Dealership → Reply
  service_types : List ServiceType → Reply
  vehicles : List Vehicle → Reply
  failed : ℕ → String → Reply
  text : ℕ → String → Reply
  aborted : Reply

abbrev write_dealerships : Option (List Dealership) → Reply
write_dealerships none = aborted
write_dealerships (some ds) = dealerships ds

-- after the loop over the rows
unfoldable pub after_joined : Bool → Option Groups → Reply
unfolding collect
after_joined is_broken none = failed 500 "scan dealership"
after_joined is_broken (some g) =
    if is_broken then failed 500 "scan dealerships" else write_dealerships (collect g.by_id g.order)

-- A loop that appends each row to `out`.
unfoldable pub scan_rows : {A : Type 0} → List (Option A) → Option (List A)
scan_rows [] = some []
scan_rows (none ∷ rows) = none
scan_rows (some r ∷ rows) = elim (scan_rows rows) [ none ↦ none | some out ↦ some (r ∷ out) ]

-- A query, and the loop over its rows.
unfoldable pub read_rows :
    {A : Type 0} → String → (Bool → Option (List A) → Reply) → Option (Cursor A) → Reply
unfolding scan_rows
read_rows message after none = failed 500 message
read_rows message after (some c) = after c.is_broken (scan_rows c.rows)

unfoldable pub after_types : Bool → Option (List ServiceType) → Reply
after_types is_broken none = failed 500 "scan service type"
after_types is_broken (some out) =
    if is_broken then failed 500 "scan service types" else service_types out

unfoldable pub after_vehicles : Bool → Option (List Vehicle) → Reply
after_vehicles is_broken none = failed 500 "scan vehicle"
after_vehicles is_broken (some out) = if is_broken then failed 500 "scan vehicles" else vehicles out

-- The faults of one request: `customer_fails` is the QueryRow of listCustomerVehicles.
pub record Faults : Type 0 where
  pub listing : Fault
  pub customer_fails : Bool

-- The handlers that NewHandler registers.
pub data Endpoint : Type 0 where
  on_dealerships on_service_types on_vehicles on_healthz : Endpoint

unfoldable pub routes : List (Route Endpoint)
routes =
    record { method = get; path = literal "dealerships" ∷ []; handler = on_dealerships }
    ∷ record { method = get; path = literal "service-types" ∷ []; handler = on_service_types }
    ∷ record {
      method = get;
      path = literal "customers" ∷ wildcard ∷ literal "vehicles" ∷ [];
      handler = on_vehicles;
    }
    ∷ record { method = get; path = literal "healthz" ∷ []; handler = on_healthz }
    ∷ []

-- r.PathValue of the only wildcard
abbrev path_value : List String → String
path_value [] = ""
path_value (v ∷ vs) = v

-- `text_le` is the collation.
module _ (text_le : String → String → Bool) (db : Tables) where
  -- ORDER BY d.name, h.weekday
  unfoldable pub joined_le : Joined → Joined → Bool
  joined_le a b =
      text_le a.name b.name && (not (text_le b.name a.name) || weekday_le a.hours b.hours)

  unfoldable pub joined_rows : List Joined
  unfolding left_join joined_le
  joined_rows = sort_by joined_le (left_join db.dealership db.opening_hours)

  -- SELECT … FROM service_type ORDER BY name
  unfoldable pub service_type_rows : List ServiceType
  service_type_rows = sort_by (λ a b. text_le a.name b.name) db.service_type

  -- SELECT … FROM vehicle WHERE customer_id = $1 ORDER BY vin
  unfoldable pub vehicle_rows : String → List Vehicle
  vehicle_rows id =
      sort_by (λ a b. text_le a.vin b.vin) (select (λ v. v.customer_id == id) db.vehicle)

  unfoldable pub list_dealerships : Fault → Reply
  unfolding joined_rows query scan_joined after_joined
  list_dealerships fault = elim (query fault joined_rows) [
    | none ↦ failed 500 "query dealerships"
    | some c ↦ after_joined c.is_broken (scan_joined c.rows no_groups)
  ]

  unfoldable pub list_service_types : Fault → Reply
  unfolding service_type_rows query read_rows after_types
  list_service_types fault =
      read_rows "query service types" after_types (query fault service_type_rows)

  unfoldable pub query_vehicles : Fault → String → Reply
  unfolding vehicle_rows query read_rows after_vehicles
  query_vehicles fault id =
      read_rows "query vehicles" after_vehicles (query fault (vehicle_rows id))

  unfoldable pub list_customer_vehicles : Faults → String → Reply
  unfolding query_vehicles
  list_customer_vehicles faults id =
      if faults.customer_fails
      then failed 500 "query customer"
      else if not (any (λ c. c == id) db.customer)
      then failed 404 "customer not found"
      else query_vehicles faults.listing id

  unfoldable pub handle : Faults → Endpoint → List String → Reply
  unfolding list_dealerships list_service_types list_customer_vehicles
  handle faults on_dealerships vs = list_dealerships faults.listing
  handle faults on_service_types vs = list_service_types faults.listing
  handle faults on_vehicles vs = list_customer_vehicles faults (path_value vs)
  handle faults on_healthz vs = text 200 "ok"

  unfoldable pub reply_found : Faults → Found Endpoint → Reply
  unfolding handle
  reply_found faults (found h vs) = handle faults h vs
  reply_found faults no_method = text 405 "Method Not Allowed"
  reply_found faults no_path = text 404 "404 page not found"

  unfoldable pub serve : Faults → Method → List String → Reply
  unfolding reply_found routes lookup
  serve faults m path = reply_found faults (lookup routes m path)
