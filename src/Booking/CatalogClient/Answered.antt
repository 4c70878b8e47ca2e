-- ===== src/Booking/CatalogClient/Answered.antt =====
-- The steps of the Catalog client on answers that are complete.
use Prim.Native.String.{◌++◌ as append}
use unified_service_schedule.Common.{
  ℕ, String, ◌≡◌, refl, Bool, true, false, ◌&&◌, Option, none, some, List, ◌==◌, any, if◌then◌else◌,
  Result, ok, err,
}
use unified_service_schedule.Booking.Hours.{Snapshot}
use unified_service_schedule.Booking.CatalogClient.{
  CatalogError, catalog_not_found, DealershipDto, ServiceTypeDto, VehicleDto, Read, Http, read_body,
  hours_map, find_dealer, get, find_dealership, check_service_type, vehicles_of, check_vehicle,
  snapshot,
}

abbrev pub or_not_found : {A : Type 0} → Option A → Result CatalogError A
or_not_found none = err catalog_not_found
or_not_found (some a) = ok a

abbrev pub found_if : Bool → Result CatalogError Bool
found_if b = if b then ok true else err catalog_not_found

abbrev pub vouched_if : Bool → Option DealershipDto → Result CatalogError Snapshot
vouched_if b none = err catalog_not_found
vouched_if b (some d) =
    if b
    then ok (record {
      dealership_id = d.id;
      timezone = d.timezone;
      opening_hours = hours_map d.opening_hours (λ _. none);
      service_type_ok = true;
      vehicle_belongs = true;
    })
    else err catalog_not_found

module _ (http : Http) where
  pub get_answered :
      (path : String) (rs : List Read)
      → http.request path ≡ some (record { status = 200; body = rs })
      → get http path ≡ some (read_body rs)
  unfolding get
  get_answered path rs h = rw (h, get) refl

  pub find_dealership_answered :
      (id : String) (body : List ℕ) (ds : List DealershipDto)
      → get http "/dealerships" ≡ some body
      → http.unmarshal_dealers body ≡ some ds
      → find_dealership http id ≡ or_not_found (find_dealer id ds)
  unfolding find_dealership
  find_dealership_answered id body ds h k = rw (h, k) refl

  pub check_service_type_answered :
      (id : String) (body : List ℕ) (ts : List ServiceTypeDto)
      → get http "/service-types" ≡ some body
      → http.unmarshal_types body ≡ some ts
      → check_service_type http id ≡ found_if (any (λ t. t.id == id) ts)
  unfolding check_service_type
  check_service_type_answered id body ts h k = rw (h, k) refl

  pub check_vehicle_answered :
      (customer id : String) (rs : List Read) (vs : List VehicleDto)
      → http.request (append (append "/customers/" customer) "/vehicles")
        ≡ some (record { status = 200; body = rs })
      → http.decode_vehicles rs ≡ some vs
      → check_vehicle http customer id ≡ found_if (any (λ v. v.id == id) vs)
  unfolding check_vehicle vehicles_of
  check_vehicle_answered customer id rs vs h k = rw (h, k) refl

  pub check_vehicle_missing :
      (customer id : String) (rs : List Read)
      → http.request (append (append "/customers/" customer) "/vehicles")
        ≡ some (record { status = 404; body = rs })
      → check_vehicle http customer id ≡ err catalog_not_found
  unfolding check_vehicle vehicles_of
  check_vehicle_missing customer id rs h = rw h refl

  -- The three steps one after the other.
  pub snapshot_steps :
      (dealership service customer vehicle : String) (found : Option DealershipDto)
      (type_found car_found : Bool)
      → find_dealership http dealership ≡ or_not_found found
      → check_service_type http service ≡ found_if type_found
      → check_vehicle http customer vehicle ≡ found_if car_found
      → snapshot http dealership service customer vehicle
        ≡ vouched_if (type_found && car_found) found
  unfolding snapshot
  snapshot_steps dealership service customer vehicle none t c h k l = rw h refl
  snapshot_steps dealership service customer vehicle (some d) false c h k l = rw (h, k) refl
  snapshot_steps dealership service customer vehicle (some d) true false h k l = rw (h, k, l) refl
  snapshot_steps dealership service customer vehicle (some d) true true h k l = rw (h, k, l) refl
