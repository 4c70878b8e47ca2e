-- ===== src/Catalog.antt =====
-- The Catalog server's listings: backend/services/catalog/catalog.go, over the tables of
-- migrations/001_init.sql, whose primary keys are IsValid.
pub mod Server
pub mod Grouping
pub mod Faults
pub mod Dealers
pub mod Hours
pub mod Wire
pub mod Rows
pub mod Served
pub mod Fixture
mod Examples
use unified_service_schedule.Common.{
  ℕ, zero, suc, ◌≡◌, In, Unlike, String, Bool, true, false, not, ◌&&◌, ◌||◌, Option, none, some,
  List, [], ◌∷◌, ◌++◌, map, ◌==◌, ltb, leb, eqb, any, select, take, sort_by, if◌then◌else◌,
}

pub record DealershipRow : Type 0 where
  pub id : String
  pub name : String
  pub timezone : String

-- The columns weekday, open_minutes and close_minutes, and the entry of the answer with these names.
pub record OpeningHours : Type 0 where
  pub weekday : ℕ
  pub open_minutes : ℕ
  pub close_minutes : ℕ

pub record HoursRow : Type 0 where
  pub dealership_id : String
  pub hours : OpeningHours

-- A row of service_type and the entry of the answer.
pub record ServiceType : Type 0 where
  pub id : String
  pub name : String
  pub duration_minutes : ℕ

pub record Vehicle : Type 0 where
  pub id : String
  pub customer_id : String
  pub vin : String

-- The customers by their ids.
pub record Tables : Type 0 where
  pub dealership : List DealershipRow
  pub opening_hours : List HoursRow
  pub service_type : List ServiceType
  pub customer : List String
  pub vehicle : List Vehicle

abbrev pub same_dealership : DealershipRow → DealershipRow → Bool
same_dealership a b = b.id == a.id

abbrev pub same_day : HoursRow → HoursRow → Bool
same_day a b = (b.dealership_id == a.dealership_id) && eqb b.hours.weekday a.hours.weekday

-- The primary keys of dealership and opening_hours, and the reference of vehicle to customer.
pub record IsValid (db : Tables) : Type 0 where
  pub ids : Unlike same_dealership db.dealership
  pub days : Unlike same_day db.opening_hours
  pub owners : (v : Vehicle) → In v db.vehicle → any (λ c. c == v.customer_id) db.customer ≡ true

-- A row of the LEFT JOIN: the three columns of h are NULL together.
pub record Joined : Type 0 where
  pub id : String
  pub name : String
  pub timezone : String
  pub hours : Option OpeningHours

pub record Dealership : Type 0 where
  pub id : String
  pub name : String
  pub timezone : String
  pub opening_hours : List OpeningHours

abbrev pub joined_row : DealershipRow → Option OpeningHours → Joined
joined_row d h = record { id = d.id; name = d.name; timezone = d.timezone; hours = h }

abbrev pub or_null : DealershipRow → List HoursRow → List Joined
or_null d [] = joined_row d none ∷ []
or_null d (h ∷ hs) = map (λ x. joined_row d (some x.hours)) (h ∷ hs)

unfoldable pub hours_of : String → List HoursRow → List HoursRow
hours_of id hs = select (λ h. h.dealership_id == id) hs

-- dealership d LEFT JOIN opening_hours h ON h.dealership_id = d.id
unfoldable pub left_join : List DealershipRow → List HoursRow → List Joined
unfolding hours_of
left_join [] hs = []
left_join (d ∷ ds) hs = or_null d (hours_of d.id hs) ++ left_join ds hs

-- the weekday's order, with NULL last
abbrev weekday_le : Option OpeningHours → Option OpeningHours → Bool
weekday_le _ none = true
weekday_le none (some b) = false
weekday_le (some a) (some b) = leb a.weekday b.weekday

-- How a query ends: with an error at once, with an error when the row of the number is scanned,
-- with an error after so many rows, or well.
pub data Fault : Type 0 where
  query_fails : Fault
  scan_fails : ℕ → Fault
  rows_fail : ℕ → Fault
  no_fault : Fault

-- What the loop over the rows meets: a row, or `none` where Scan fails; at the end, whether
-- rows.Err reports an error.
pub record Cursor (A : Type 0) : Type 0 where
  pub rows : List (Option A)
  pub is_broken : Bool

unfoldable pub spoilt : {A : Type 0} → ℕ → List A → List (Option A)
spoilt n [] = []
spoilt zero (x ∷ xs) = none ∷ map some xs
spoilt (suc n) (x ∷ xs) = some x ∷ spoilt n xs

-- pool.Query
unfoldable pub query : {A : Type 0} → Fault → List A → Option (Cursor A)
unfolding spoilt
query query_fails xs = none
query (scan_fails n) xs = some (record { rows = spoilt n xs; is_broken = false })
query (rows_fail n) xs = some (record { rows = map some (take n xs); is_broken = true })
query no_fault xs = some (record { rows = map some xs; is_broken = false })

-- The variables of the loop of listDealerships: the map byID of pointers and the slice order.
pub record Groups : Type 0 where
  pub by_id : String → Option Dealership
  pub order : List String

abbrev pub no_groups : Groups
no_groups = record { by_id = λ _. none; order = [] }

-- the append under `weekday != nil`
unfoldable pub with_hours : Option OpeningHours → Dealership → Dealership
with_hours none d = d
with_hours (some h) d = record d { opening_hours = d.opening_hours ++ (h ∷ []) }

abbrev pub put : String → Dealership → (String → Option Dealership) → String → Option Dealership
put id d m i = if id == i then some d else m i

abbrev pub first_seen : Joined → Dealership
first_seen r = record { id = r.id; name = r.name; timezone = r.timezone; opening_hours = [] }

abbrev pub grouped : Joined → Groups → Option Dealership → Groups
grouped r g none = record {
  by_id = put r.id (with_hours r.hours (first_seen r)) g.by_id;
  order = g.order ++ (r.id ∷ []);
}
grouped r g (some d) = record g { by_id = put r.id (with_hours r.hours d) g.by_id }

-- One round of the loop.
unfoldable pub add_row : Joined → Groups → Groups
unfolding with_hours
add_row r g = grouped r g (g.by_id r.id)

unfoldable pub scan_joined : List (Option Joined) → Groups → Option Groups
unfolding add_row
scan_joined [] g = some g
scan_joined (none ∷ rows) g = none
scan_joined (some r ∷ rows) g = scan_joined rows (add_row r g)

-- The loop over order; `none` is the panic of *byID[id] on a nil pointer.
unfoldable pub collect : (String → Option Dealership) → List String → Option (List Dealership)
collect m [] = some []
collect m (i ∷ is) = elim (m i) [
  | none ↦ none
  | some d ↦ elim (collect m is) [ none ↦ none | some ds ↦ some (d ∷ ds) ]
]
