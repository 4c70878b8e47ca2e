-- ===== src/Catalog/Grouping.antt =====
-- The loop of listDealerships against the listing that it is for: each dealership once, where it is
-- first met, with the hours of all its rows.
pub mod Listing
use unified_service_schedule.Common.{
  ℕ, String, ◌≡◌, refl, sym, ap, ◌∙◌, Bool, true, false, not, ◌&&◌, ◌||◌, Option, none, some, List,
  [], ◌∷◌, ◌++◌, map, arith, ◌==◌, eq_iff, eq_refl, any, any-In, In, here, there, select,
  if◌then◌else◌, Bool-cases, Option-cases, inl, inr,
}
use unified_service_schedule.Catalog.{
  OpeningHours, Joined, Dealership, Groups, no_groups, with_hours, put, first_seen, grouped,
  add_row, scan_joined, collect,
}

abbrev pub or_skip : Option OpeningHours → List OpeningHours → List OpeningHours
or_skip none hs = hs
or_skip (some h) hs = h ∷ hs

-- The hours in the rows of a dealership.
unfoldable pub hours_in : String → List Joined → List OpeningHours
hours_in id [] = []
hours_in id (r ∷ rs) =
    let rest = hours_in id rs in if r.id == id then or_skip r.hours rest else rest

-- The listing that is meant.
unfoldable pub listing : List Joined → List Dealership
unfolding hours_in
listing [] = []
listing (r ∷ rs) =
    record {
      id = r.id;
      name = r.name;
      timezone = r.timezone;
      opening_hours = hours_in r.id (r ∷ rs);
    }
    ∷ select (λ d. not (r.id == d.id)) (listing rs)

abbrev pub has : String → List Dealership → Bool
has i ds = any (λ d. d.id == i) ds

abbrev pub find_in : String → List Dealership → Option Dealership
find_in i [] = none
find_in i (d ∷ ds) = let rest = find_in i ds in if d.id == i then some d else rest

abbrev pub Distinct : List Dealership → Type 0
Distinct [] = Unit {0}
Distinct (d ∷ ds) = (has d.id ds ≡ false) × Distinct ds

-- What a round of the loop does to the list of the dealerships met so far.
abbrev pub upsert : Joined → List Dealership → List Dealership
upsert r [] = with_hours r.hours (first_seen r) ∷ []
upsert r (d ∷ ds) =
    let rest = upsert r ds in if d.id == r.id then with_hours r.hours d ∷ ds else d ∷ rest

-- The map and the slice hold the list.
abbrev pub Represents : Groups → List Dealership → Type 0
Represents g ds = (g.order ≡ map (λ d. d.id) ds) × ((i : String) → g.by_id i ≡ find_in i ds)

with_hours-id : (h : Option OpeningHours) (d : Dealership) → (with_hours h d).id ≡ d.id
unfolding with_hours
with_hours-id none d = refl
with_hours-id (some h) d = refl

pub has-upsert :
    (i : String) (r : Joined) (ds : List Dealership)
    → has i (upsert r ds) ≡ (has i ds || (r.id == i))
has-upsert i r [] = ground (arith, with_hours-id r.hours (first_seen r))
has-upsert i r (d ∷ ds) =
    ground (arith, has-upsert i r ds, with_hours-id r.hours d, eq_iff d.id r.id)

pub upsert-Distinct : (r : Joined) (ds : List Dealership) → Distinct ds → Distinct (upsert r ds)
upsert-Distinct r [] v = (refl, tt)
upsert-Distinct r (d ∷ ds) v = ground (
  arith,
  upsert-Distinct r ds v.1,
  has-upsert d.id r ds,
  with_hours-id r.hours d,
  eq_iff r.id d.id,
  eq_iff d.id r.id,
)

find_in-has : (i : String) (ds : List Dealership) → has i ds ≡ false → find_in i ds ≡ none
find_in-has i [] h = refl
find_in-has i (d ∷ ds) h = ground (arith, find_in-has i ds)

find_in-absent :
    (i : String) (r : Joined) (ds : List Dealership)
    → has r.id ds ≡ false
    → find_in i (upsert r ds)
      ≡ (if r.id == i then some (with_hours r.hours (first_seen r)) else find_in i ds)
find_in-absent i r [] h = ground (arith, with_hours-id r.hours (first_seen r))
find_in-absent i r (d ∷ ds) h =
    ground (arith, find_in-absent i r ds, eq_iff d.id i, eq_iff r.id i, eq_iff d.id r.id)

find_in-present :
    (i : String) (r : Joined) (d : Dealership) (ds : List Dealership)
    → find_in r.id ds ≡ some d
    → find_in i (upsert r ds) ≡ (if r.id == i then some (with_hours r.hours d) else find_in i ds)
find_in-present i r d [] h = cc
find_in-present i r d (x ∷ ds) h = ground (
  arith,
  find_in-present i r d ds,
  with_hours-id r.hours x,
  eq_iff x.id i,
  eq_iff r.id i,
  eq_iff x.id r.id,
)

order-absent :
    (r : Joined) (ds : List Dealership)
    → has r.id ds ≡ false
    → map (λ (d : Dealership). d.id) (upsert r ds) ≡ map (λ d. d.id) ds ++ (r.id ∷ [])
order-absent r [] h = ground (arith, with_hours-id r.hours (first_seen r))
order-absent r (d ∷ ds) h = ground (arith, order-absent r ds)

order-present :
    (r : Joined) (ds : List Dealership)
    → has r.id ds ≡ true
    → map (λ (d : Dealership). d.id) (upsert r ds) ≡ map (λ d. d.id) ds
order-present r [] h = cc
order-present r (d ∷ ds) h = ground (arith, order-present r ds, with_hours-id r.hours d)

find_in-some :
    (i : String) (ds : List Dealership)
    → has i ds ≡ true
    → (d : Dealership) × (find_in i ds ≡ some d)
find_in-some i [] h = cc
find_in-some i (x ∷ ds) h = elim (Bool-cases (x.id == i)) [
  | inl e ↦ (x, rw e)
  | inr e ↦ let (d, f) = find_in-some i ds (ground (arith, e)) in (d, rw e f)
]

Represents-add_row :
    (r : Joined) (g : Groups) (ds : List Dealership)
    → Represents g ds
    → Represents (add_row r g) (upsert r ds)
unfolding add_row
Represents-add_row r g ds (o, m) = elim (Bool-cases (has r.id ds)) [
  | inr e ↦
      let miss = m r.id ∙ find_in-has r.id ds e in
      rw miss (
        ap (λ l. l ++ (r.id ∷ [])) o ∙ sym (order-absent r ds e),
        (λ i. ground (arith, m i, find_in-absent i r ds e)),
      )
  | inl e ↦
      let (d, f) = find_in-some r.id ds e in
      let hit = m r.id ∙ f in
      rw hit
        (o ∙ sym (order-present r ds e), (λ i. ground (arith, m i, find_in-present i r d ds f)))
]

-- The list after more rows.
abbrev pub upsert_all : List Joined → List Dealership → List Dealership
upsert_all [] ds = ds
upsert_all (r ∷ rs) ds = upsert_all rs (upsert r ds)

pub scan_joined-Represents :
    (rs : List Joined) (g : Groups) (ds : List Dealership)
    → Represents g ds
    → Distinct ds
    → (g' : Groups) × (scan_joined (map some rs) g ≡ some g')
      × Represents g' (upsert_all rs ds)
      × Distinct (upsert_all rs ds)
unfolding scan_joined
scan_joined-Represents [] g ds p v = (g, refl, p, v)
scan_joined-Represents (r ∷ rs) g ds p v =
    scan_joined-Represents rs (add_row r g) (upsert r ds) (Represents-add_row r g ds p)
      (upsert-Distinct r ds v)
