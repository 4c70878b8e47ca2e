-- ===== src/Catalog/Fixture.antt =====
-- For the tests: two dealerships that share a name, so that their rows alternate, and a network that
-- sends one byte first.
use unified_service_schedule.Common.{
  ℕ, String, sort_by, any, sym, ap, ◌∙◌, ◌≡◌, refl, Bool, true, false, none, some, List, [], ◌∷◌,
  map, ◌==◌, eqb, In, here, there, arith, if◌then◌else◌,
}
use unified_service_schedule.Booking.CatalogClient.{Read, read_body}
use unified_service_schedule.Catalog.{Tables, OpeningHours, Dealership, Vehicle, IsValid, no_fault}
use unified_service_schedule.Catalog.Server.{
  Reply, dealerships, service_types, vehicles, list_dealerships, list_service_types,
  list_customer_vehicles,
}
use unified_service_schedule.Catalog.Faults.{no_faults}
use unified_service_schedule.Catalog.Wire.{
  Delivered, last, more, dealer_dto, type_dto, vehicle_dto, Wire, IsFaithful,
}
use unified_service_schedule.Catalog.Served.{read_body-Delivered}

abbrev pub text_le : String → String → Bool
text_le a b = true

abbrev hours : ℕ → ℕ → OpeningHours
hours day first = record { weekday = day; open_minutes = first; close_minutes = 1020 }

abbrev pub db : Tables
db = record {
  dealership =
      record { id = "north"; name = "Workshop"; timezone = "Europe/London" }
      ∷ record { id = "south"; name = "Workshop"; timezone = "Europe/Berlin" }
      ∷ [];
  opening_hours =
      record { dealership_id = "north"; hours = hours 2 480 }
      ∷ record { dealership_id = "south"; hours = hours 1 420 }
      ∷ record { dealership_id = "north"; hours = hours 1 540 }
      ∷ [];
  service_type = record { id = "oil"; name = "Oil change"; duration_minutes = 30 } ∷ [];
  customer = "c" ∷ [];
  vehicle = record { id = "v"; customer_id = "c"; vin = "X1" } ∷ [];
}

db-owners : {v : Vehicle} → In v db.vehicle → any (λ c. c == v.customer_id) db.customer ≡ true
db-owners (here e) = rw⁻¹ e refl
db-owners (there m) = elim m [ ]

pub db-IsValid : IsValid db
db-IsValid = record {
  ids = (refl, (refl, tt));
  days = (refl, (refl, (refl, tt)));
  owners = λ v m. db-owners m;
}

abbrev pub all : List Dealership
all =
    record {
      id = "north";
      name = "Workshop";
      timezone = "Europe/London";
      opening_hours = hours 1 540 ∷ hours 2 480 ∷ [];
    }
    ∷ record {
      id = "south";
      name = "Workshop";
      timezone = "Europe/Berlin";
      opening_hours = hours 1 420 ∷ [];
    }
    ∷ []

list_dealerships_run : list_dealerships text_le db no_fault ≡ dealerships all
unfolding list_dealerships sort_by
list_dealerships_run = refl

types_run : list_service_types text_le db no_fault ≡ service_types db.service_type
unfolding list_service_types sort_by
types_run = refl

vehicles_run : list_customer_vehicles text_le db no_faults "c" ≡ vehicles db.vehicle
unfolding list_customer_vehicles sort_by
vehicles_run = refl

-- One byte of the body tells the listings apart.
abbrev encode : Reply → List ℕ
encode (dealerships ds) = 1 ∷ []
encode (service_types ts) = 2 ∷ []
encode (vehicles vs) = 3 ∷ 4 ∷ []
encode _ = []

abbrev first_byte : List ℕ → ℕ
first_byte [] = 0
first_byte (b ∷ bs) = b

abbrev deliver : List ℕ → List Read
deliver [] = record { bytes = []; is_error = true } ∷ []
deliver (b ∷ bs) =
    record { bytes = b ∷ []; is_error = false } ∷ record { bytes = bs; is_error = true } ∷ []

deliver-Delivered : (bs : List ℕ) → Delivered bs (deliver bs)
deliver-Delivered [] = last []
deliver-Delivered (b ∷ bs) = more (b ∷ []) bs refl (last bs)

abbrev pub wire : Wire
wire = record {
  path_of = λ path.
      if path == "/dealerships"
      then "dealerships" ∷ []
      else if path == "/service-types"
      then "service-types" ∷ []
      else "customers" ∷ "c" ∷ "vehicles" ∷ [];
  encode = encode;
  deliver = deliver;
  unmarshal_dealers = λ bs. if eqb (first_byte bs) 1 then some (map dealer_dto all) else none;
  unmarshal_types =
      λ bs. if eqb (first_byte bs) 2 then some (map type_dto db.service_type) else none;
  decode_vehicles =
      λ rs. if eqb (first_byte (read_body rs)) 3 then some (map vehicle_dto db.vehicle) else none;
}

pub wire-IsFaithful : IsFaithful wire text_le db "c"
wire-IsFaithful = record {
  dealerships_path = refl;
  types_path = refl;
  vehicles_path = refl;
  delivers = deliver-Delivered;
  dealers_read = λ ds e.
      let same : all ≡ ds = ground (arith, sym list_dealerships_run ∙ e) in
      ap (λ l. some (map dealer_dto l)) same;
  types_read = λ ts e.
      let same : db.service_type ≡ ts = ground (arith, sym types_run ∙ e) in
      ap (λ l. some (map type_dto l)) same;
  vehicles_read = λ vs e d.
      let same : db.vehicle ≡ vs = ground (arith, sym vehicles_run ∙ e) in
      rw (read_body-Delivered d) (ap (λ l. some (map vehicle_dto l)) same);
}
