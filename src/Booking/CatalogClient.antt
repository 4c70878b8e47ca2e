-- ===== src/Booking/CatalogClient.antt =====
-- The Catalog client: backend/services/booking/catalog_client.go. The network is a parameter, and
-- so is the reading of JSON.
pub mod Snapshots
pub mod Answered
pub mod Reading
mod Examples
use Prim.Native.String.{◌++◌ as append}
use unified_service_schedule.Common.{
  ℕ, String, Bool, true, false, ◌||◌, Option, none, some, List, [], ◌∷◌, ◌++◌, ◌==◌, eqb, any,
  if◌then◌else◌, Result, ok, err,
}
use unified_service_schedule.Booking.Hours.{OpeningHours, Snapshot}

-- errCatalogNotFound and errCatalogDown
pub data CatalogError : Type 0 where
  catalog_not_found catalog_down : CatalogError

pub record DealershipDto : Type 0 where
  pub id : String
  pub name : String
  pub timezone : String
  pub opening_hours : List OpeningHours

pub record ServiceTypeDto : Type 0 where
  pub id : String

pub record VehicleDto : Type 0 where
  pub id : String
  pub customer_id : String

-- One call of Body.Read: the bytes, and whether an error came with them (io.EOF is one).
pub record Read : Type 0 where
  pub bytes : List ℕ
  pub is_error : Bool

pub record Response : Type 0 where
  pub status : ℕ
  pub body : List Read

abbrev pub is_empty : List ℕ → Bool
is_empty [] = true
is_empty (_ ∷ _) = false

-- The read loop ends after an error, whatever error, and after a read of no bytes.
unfoldable pub read_body : List Read → List ℕ
read_body [] = []
read_body (r ∷ rs) =
    let rest = read_body rs in if is_empty r.bytes || r.is_error then r.bytes else r.bytes ++ rest

-- What the client needs of its surroundings: `request` is HTTP.Do on the path (`none` is an error,
-- also of NewRequest), and the others read JSON, from the bytes or from the body as it comes.
pub record Http : Type 0 where
  pub request : String → Option Response
  pub unmarshal_dealers : List ℕ → Option (List DealershipDto)
  pub unmarshal_types : List ℕ → Option (List ServiceTypeDto)
  pub decode_vehicles : List Read → Option (List VehicleDto)

infixl 5 ◌>>=◌
abbrev ◌>>=◌ :
    {A B : Type 0} → Result CatalogError A → (A → Result CatalogError B) → Result CatalogError B
ok a >>= f = f a
err e >>= f = err e

-- any error of a step that is not told apart
abbrev or_down : {A : Type 0} → Option A → Result CatalogError A
or_down none = err catalog_down
or_down (some a) = ok a

-- Later entries of a weekday replace earlier ones.
unfoldable pub hours_map : List OpeningHours → (ℕ → Option OpeningHours) → ℕ → Option OpeningHours
hours_map [] m = m
hours_map (h ∷ hs) m = hours_map hs (λ d. if eqb h.weekday d then some h else m d)

unfoldable pub find_dealer : String → List DealershipDto → Option DealershipDto
find_dealer id [] = none
find_dealer id (d ∷ ds) = if d.id == id then some d else find_dealer id ds

module _ (http : Http) where
  unfoldable pub get : String → Option (List ℕ)
  unfolding read_body
  get path = elim (http.request path) [
    | none ↦ none
    | some resp ↦ if eqb resp.status 200 then some (read_body resp.body) else none
  ]

  unfoldable pub find_dealership : String → Result CatalogError DealershipDto
  unfolding get find_dealer
  find_dealership id = do
    body ← or_down (get "/dealerships")
    dealers ← or_down (http.unmarshal_dealers body)
    (elim (find_dealer id dealers) [ none ↦ err catalog_not_found | some d ↦ ok d ])

  unfoldable pub check_service_type : String → Result CatalogError Bool
  unfolding get
  check_service_type id = do
    body ← or_down (get "/service-types")
    types ← or_down (http.unmarshal_types body)
    (if any (λ (st : ServiceTypeDto). st.id == id) types then ok true else err catalog_not_found)

  unfoldable pub vehicles_of : Response → Result CatalogError (List VehicleDto)
  vehicles_of resp =
      if eqb resp.status 404
      then err catalog_not_found
      else if eqb resp.status 200
      then or_down (http.decode_vehicles resp.body)
      else err catalog_down

  unfoldable pub check_vehicle : String → String → Result CatalogError Bool
  unfolding vehicles_of
  check_vehicle customer vehicle = do
    resp ← or_down (http.request (append (append "/customers/" customer) "/vehicles"))
    vehicles ← vehicles_of resp
    (if any (λ (v : VehicleDto). v.id == vehicle) vehicles then ok true else err catalog_not_found)

  unfoldable pub snapshot : String → String → String → String → Result CatalogError Snapshot
  unfolding find_dealership check_service_type check_vehicle hours_map
  snapshot dealership service customer vehicle = do
    d ← find_dealership dealership
    type_ok ← check_service_type service
    belongs ← check_vehicle customer vehicle
    ok (record {
      dealership_id = d.id;
      timezone = d.timezone;
      opening_hours = hours_map d.opening_hours (λ _. none);
      service_type_ok = type_ok;
      vehicle_belongs = belongs;
    })
