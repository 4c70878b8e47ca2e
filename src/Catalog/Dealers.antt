-- ===== src/Catalog/Dealers.antt =====
-- A dealership in the listing, and its row in the table.
use unified_service_schedule.Common.{
  String, ◌≡◌, ◌⊎◌, inl, inr, refl, sym, ap, ◌∙◌, false, not, Option, none, some, List, [], ◌∷◌,
  ◌++◌, map, arith, ◌==◌, eq_iff, any, In, here, there, In-map, map-In, In-append_left,
  In-append_right, append-In, select, if◌then◌else◌, Bool-cases,
}
use unified_service_schedule.Booking.CatalogClient.{DealershipDto, find_dealer}
use unified_service_schedule.Catalog.{
  OpeningHours, Joined, joined_row, Dealership, DealershipRow, HoursRow, hours_of, left_join,
  or_null,
}
use unified_service_schedule.Catalog.Grouping.{hours_in, listing}
use unified_service_schedule.Catalog.Wire.{dealer_dto}

abbrev first_entry : Joined → List Joined → Dealership
first_entry r rs = record {
  id = r.id;
  name = r.name;
  timezone = r.timezone;
  opening_hours = hours_in r.id (r ∷ rs);
}

-- The entry of a dealership.
abbrev pub entry : String → List Joined → Option Dealership
entry id [] = none
entry id (r ∷ rs) = let rest = entry id rs in if r.id == id then some (first_entry r rs) else rest

find_dealer-other :
    (i id : String) (ds : List Dealership)
    → (i == id) ≡ false
    → find_dealer id (map dealer_dto (select (λ d. not (i == d.id)) ds))
      ≡ find_dealer id (map dealer_dto ds)
unfolding find_dealer
find_dealer-other i id [] h = refl
find_dealer-other i id (d ∷ ds) h =
    ground (arith, find_dealer-other i id ds h, eq_iff i d.id, eq_iff d.id id, eq_iff i id)

abbrev pub dto_of : Option Dealership → Option DealershipDto
dto_of none = none
dto_of (some d) = some (dealer_dto d)

pub find_dealer-listing :
    (id : String) (rs : List Joined)
    → find_dealer id (map dealer_dto (listing rs)) ≡ dto_of (entry id rs)
unfolding find_dealer listing
find_dealer-listing id [] = refl
find_dealer-listing id (r ∷ rs) = elim (Bool-cases (r.id == id)) [
  | inl e ↦ rw e refl
  | inr e ↦ rw e (find_dealer-other r.id id (listing rs) e ∙ find_dealer-listing id rs)
]

hours_in-none :
    (id : String) (r : Joined) (rs : List Joined)
    → (r.id == id) ≡ false
    → hours_in id (r ∷ rs) ≡ hours_in id rs
unfolding hours_in
hours_in-none id r rs h = rw h refl

-- An entry has the id, the zone of a row with the id, and the hours of all rows with it.
pub entry-row :
    (id : String) (rs : List Joined) (e : Dealership)
    → entry id rs ≡ some e
    → (r : Joined) × In r rs
      × (r.id ≡ id)
      × (e.id ≡ id)
      × (e.timezone ≡ r.timezone)
      × (e.opening_hours ≡ hours_in id rs)
entry-row id [] e h = cc
entry-row id (r ∷ rs) e h = elim (Bool-cases (r.id == id)) [
  | inl k ↦
      let same : first_entry r rs ≡ e = ground (arith, k) in
      let i : r.id ≡ id = (eq_iff r.id id).0 k in
      (
        r,
        here refl,
        i,
        ap (λ (d : Dealership). d.id) (sym same) ∙ i,
        ap (λ (d : Dealership). d.timezone) (sym same),
        ap (λ (d : Dealership). d.opening_hours) (sym same) ∙ ap (λ j. hours_in j (r ∷ rs)) i,
      )
  | inr k ↦
      let (q, m, i, j, z, o) = entry-row id rs e (rw k at h) in
      (q, there m, i, j, z, o ∙ sym (hours_in-none id r rs k))
]

pub entry-none :
    (id : String) (rs : List Joined) → entry id rs ≡ none → any (λ r. r.id == id) rs ≡ false
entry-none id [] h = refl
entry-none id (r ∷ rs) h = ground (arith, entry-none id rs)

-- The rows of the join of a dealership: one for each entry of its hours, or one without.
or_null-In :
    (d : DealershipRow) (hs : List HoursRow) {r : Joined}
    → In r (or_null d hs)
    → ((h : HoursRow) × In h hs × (r ≡ joined_row d (some h.hours))) ⊎ (r ≡ joined_row d none)
or_null-In d [] (here e) = inr (sym e)
or_null-In d [] (there m) = elim m [ ]
or_null-In d (h ∷ hs) m =
    let (x, i, e) = map-In (λ (y : HoursRow). joined_row d (some y.hours)) (h ∷ hs) m in
    inl (x, i, sym e)

-- A row of the join comes from a dealership, and its hours from an entry for the dealership.
pub left_join-In :
    (ds : List DealershipRow) (hs : List HoursRow) {r : Joined}
    → In r (left_join ds hs)
    → (d : DealershipRow) × In d ds
      × (((h : HoursRow) × In h (hours_of d.id hs) × (r ≡ joined_row d (some h.hours)))
          ⊎ (r ≡ joined_row d none))
unfolding left_join
left_join-In [] hs m = elim m [ ]
left_join-In (d ∷ ds) hs m = elim (append-In (or_null d (hours_of d.id hs)) (left_join ds hs) m) [
  | inl i ↦ (d, here refl, or_null-In d (hours_of d.id hs) i)
  | inr i ↦ let (x, n, e) = left_join-In ds hs i in (x, there n, e)
]

first_row :
    (d : DealershipRow) (hs : List HoursRow) (rest : List Joined)
    → (h : Option OpeningHours) × In (joined_row d h) (or_null d hs ++ rest)
first_row d [] rest = (none, here refl)
first_row d (h ∷ hs) rest = (some h.hours, here refl)

In-or_null :
    (d : DealershipRow) (hs : List HoursRow) (h : HoursRow)
    → In h hs
    → In (joined_row d (some h.hours)) (or_null d hs)
In-or_null d [] h m = elim m [ ]
In-or_null d (x ∷ hs) h m = In-map (λ y. joined_row d (some y.hours)) m

-- Each dealership has a row.
pub In-left_join :
    (ds : List DealershipRow) (hs : List HoursRow) (d : DealershipRow)
    → In d ds
    → (h : Option OpeningHours) × In (joined_row d h) (left_join ds hs)
unfolding left_join
In-left_join [] hs d m = elim m [ ]
In-left_join (x ∷ ds) hs d (here e) = rw⁻¹ e (first_row x (hours_of x.id hs) (left_join ds hs))
In-left_join (x ∷ ds) hs d (there m) =
    let (h, i) = In-left_join ds hs d m in (h, In-append_right (or_null x (hours_of x.id hs)) _ i)

-- Each entry of a dealership's hours has a row.
pub In-left_join_hours :
    (ds : List DealershipRow) (hs : List HoursRow) (d : DealershipRow) (h : HoursRow)
    → In d ds
    → In h (hours_of d.id hs)
    → In (joined_row d (some h.hours)) (left_join ds hs)
unfolding left_join
In-left_join_hours [] hs d h m n = elim m [ ]
In-left_join_hours (x ∷ ds) hs d h (here e) n =
    rw⁻¹ e
      (In-append_left (or_null x (hours_of x.id hs)) _ (In-or_null x (hours_of x.id hs) h (rw e n)))
In-left_join_hours (x ∷ ds) hs d h (there m) n =
    In-append_right (or_null x (hours_of x.id hs)) _ (In-left_join_hours ds hs d h m n)
