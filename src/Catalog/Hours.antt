-- ===== src/Catalog/Hours.antt =====
-- The opening hours that the client makes of the listing, and their rows in the table.
use unified_service_schedule.Common.{
  ℕ, String, ◌≡◌, ◌⊎◌, inl, inr, refl, sym, ap, ◌∙◌, Bool, true, false, ◌&&◌, Option, none, some,
  List, [], ◌∷◌, map, arith, ◌==◌, eq_iff, eqb, Unlike, Unlike-eq, any, any-In, In, here, there,
  In-map, map-In, select-In, In-select, if◌then◌else◌, Bool-cases, Option-cases, sort_by-In,
  In-sort_by,
}
use unified_service_schedule.Booking.Hours as Booking
use unified_service_schedule.Booking.CatalogClient.{hours_map}
use unified_service_schedule.Booking.CatalogClient.Snapshots.{hours_map-In}
use unified_service_schedule.Catalog.{
  OpeningHours, Tables, same_day, Joined, DealershipRow, HoursRow, hours_of,
}
use unified_service_schedule.Catalog.Server.{joined_rows}
use unified_service_schedule.Catalog.Grouping.{or_skip, hours_in}
use unified_service_schedule.Catalog.Wire.{hours_dto}
use unified_service_schedule.Catalog.Dealers.{left_join-In, In-left_join_hours}

-- The row of a dealership's weekday.
unfoldable pub find_hours : String → ℕ → List HoursRow → Option Booking.OpeningHours
find_hours id day [] = none
find_hours id day (h ∷ hs) =
    let rest = find_hours id day hs in
    if (h.dealership_id == id) && eqb h.hours.weekday day then some (hours_dto h.hours) else rest

pub find_hours-In :
    (id : String) (day : ℕ) (hs : List HoursRow) (x : Booking.OpeningHours)
    → find_hours id day hs ≡ some x
    → (h : HoursRow) × In h hs
      × (h.dealership_id ≡ id)
      × (h.hours.weekday ≡ day)
      × (hours_dto h.hours ≡ x)
unfolding find_hours
find_hours-In id day [] x e = cc
find_hours-In id day (h ∷ hs) x e =
    elim (Bool-cases ((h.dealership_id == id) && eqb h.hours.weekday day)) [
      | inl k ↦
          let same : hours_dto h.hours ≡ x = ground (arith, k, e) in
          (h, here refl, ground (arith, k, eq_iff h.dealership_id id), ground (arith, k), same)
      | inr k ↦ let (q, m, i, w, s) = find_hours-In id day hs x (rw k at e) in (q, there m, i, w, s)
    ]

find_hours-none :
    (id : String) (day : ℕ) (hs : List HoursRow)
    → find_hours id day hs ≡ none
    → any (λ h. (h.dealership_id == id) && eqb h.hours.weekday day) hs ≡ false
unfolding find_hours
find_hours-none id day [] e = refl
find_hours-none id day (h ∷ hs) e = ground (arith, find_hours-none id day hs)

-- The row of a weekday is found, where there is only one.
In-find_hours :
    (id : String) (day : ℕ) (hs : List HoursRow) (h : HoursRow) {x : Booking.OpeningHours}
    → Unlike same_day hs
    → In h hs
    → h.dealership_id ≡ id
    → h.hours.weekday ≡ day
    → hours_dto h.hours ≡ x
    → find_hours id day hs ≡ some x
In-find_hours id day hs h v m i w e = elim (Option-cases (find_hours id day hs)) [
  | inl f ↦
      let no = any-In _ hs (find_hours-none id day hs f) m in
      absurd (ground (arith, no, w, eq_iff h.dealership_id id))
  | inr (y, f) ↦
      let (q, n, j, u, s) = find_hours-In id day hs y f in
      let same : h ≡ q =
        Unlike-eq same_day hs v m n
          (ground (arith, i, j, w, u, eq_iff q.dealership_id h.dealership_id))
          (ground (arith, i, j, w, u, eq_iff h.dealership_id q.dealership_id)) in
      f ∙ ap some (sym s ∙ ap (λ (z : HoursRow). hours_dto z.hours) (sym same) ∙ e)
]

hours_map-none :
    (hs : List Booking.OpeningHours) (m : ℕ → Option Booking.OpeningHours) (day : ℕ)
    → hours_map hs m day ≡ none
    → (any (λ h. eqb h.weekday day) hs ≡ false) × (m day ≡ none)
unfolding hours_map
hours_map-none [] m day e = (refl, e)
hours_map-none (h ∷ hs) m day e =
    let (a, b) = hours_map-none hs _ day e in (ground (arith, a, b), ground (arith, a, b))

or_skip-In :
    (o : Option OpeningHours) (hs : List OpeningHours) {y : OpeningHours}
    → In y (or_skip o hs)
    → (o ≡ some y) ⊎ In y hs
or_skip-In none hs m = inr m
or_skip-In (some h) hs (here e) = inl (ap some e)
or_skip-In (some h) hs (there m) = inr m

In-or_skip :
    (o : Option OpeningHours) (hs : List OpeningHours) {y : OpeningHours}
    → (o ≡ some y) ⊎ In y hs
    → In y (or_skip o hs)
In-or_skip none hs (inl e) = cc
In-or_skip none hs (inr m) = m
In-or_skip (some h) hs (inl e) = here (ground arith)
In-or_skip (some h) hs (inr m) = there m

hours_in-In :
    (id : String) (rs : List Joined) {y : OpeningHours}
    → In y (hours_in id rs)
    → (r : Joined) × In r rs × (r.id ≡ id) × (r.hours ≡ some y)
unfolding hours_in
hours_in-In id [] m = elim m [ ]
hours_in-In id (r ∷ rs) m = elim (Bool-cases (r.id == id)) [
  | inr k ↦ let (q, n, i, h) = hours_in-In id rs (rw k at m) in (q, there n, i, h)
  | inl k ↦ elim (or_skip-In r.hours (hours_in id rs) (rw k at m)) [
    | inl h ↦ (r, here refl, (eq_iff r.id id).0 k, h)
    | inr n ↦ let (q, o, i, h) = hours_in-In id rs n in (q, there o, i, h)
  ]
]

In-hours_in :
    (id : String) (rs : List Joined) {r : Joined} {y : OpeningHours}
    → In r rs
    → r.id ≡ id
    → r.hours ≡ some y
    → In y (hours_in id rs)
unfolding hours_in
In-hours_in id [] m i h = elim m [ ]
In-hours_in id (x ∷ rs) (here e) i h =
    let k : (x.id == id) ≡ true = (eq_iff x.id id).1 (ap (λ (z : Joined). z.id) e ∙ i) in
    rw k (In-or_skip x.hours (hours_in id rs) (inl (ap (λ (z : Joined). z.hours) e ∙ h)))
In-hours_in id (x ∷ rs) (there m) i h =
    let rest = In-hours_in id rs m i h in
    elim (Bool-cases (x.id == id)) [
      | inl k ↦ rw k (In-or_skip x.hours (hours_in id rs) (inr rest))
      | inr k ↦ rw k rest
    ]

module _ (text_le : String → String → Bool) (db : Tables) where
  -- an entry of the listing is a row of the table
  listed_row :
      (id : String) {y : OpeningHours}
      → In y (hours_in id (joined_rows text_le db))
      → (h : HoursRow) × In h db.opening_hours × (h.dealership_id ≡ id) × (h.hours ≡ y)
  unfolding joined_rows hours_of
  listed_row id {y} m =
      let (r, n, i, e) = hours_in-In id (joined_rows text_le db) m in
      let (d, o, s) = left_join-In db.dealership db.opening_hours (sort_by-In _ _ n) in
      elim s [
        | inr q ↦ absurd (cc (ap (λ (z : Joined). z.hours) q, e))
        | inl (h, p, q) ↦
            let (a, b) = select-In (λ (x : HoursRow). x.dealership_id == d.id) db.opening_hours p in
            let own : d.id ≡ id = sym (ap (λ (z : Joined). z.id) q) ∙ i in
            let hours : some h.hours ≡ some y = sym (ap (λ (z : Joined). z.hours) q) ∙ e in
            (h, a, (eq_iff h.dealership_id d.id).0 b ∙ own, ground (arith, hours))
      ]

  -- a row of the table is an entry of the listing
  row_listed :
      (d : DealershipRow) (h : HoursRow)
      → In d db.dealership
      → In h db.opening_hours
      → h.dealership_id ≡ d.id
      → In h.hours (hours_in d.id (joined_rows text_le db))
  unfolding joined_rows hours_of
  row_listed d h m n e =
      let k = (eq_iff h.dealership_id d.id).1 e in
      let o =
        In-left_join_hours db.dealership db.opening_hours d h m
          (In-select _ db.opening_hours k n) in
      In-hours_in d.id (joined_rows text_le db) (In-sort_by _ _ o) refl refl

  -- The client's map of the listed hours is the table's.
  pub hours_map-find_hours :
      (d : DealershipRow) (day : ℕ)
      → In d db.dealership
      → Unlike same_day db.opening_hours
      → hours_map (map hours_dto (hours_in d.id (joined_rows text_le db))) (λ _. none) day
        ≡ find_hours d.id day db.opening_hours
  hours_map-find_hours d day m v =
      elim (Option-cases
        (hours_map (map hours_dto (hours_in d.id (joined_rows text_le db))) (λ _. none) day)) [
          | inl e ↦ elim (Option-cases (find_hours d.id day db.opening_hours)) [
            | inl f ↦ e ∙ sym f
            | inr (x, f) ↦
                let (h, n, i, w, s) = find_hours-In d.id day db.opening_hours x f in
                let o =
                  any-In _ _ (hours_map-none _ _ day e).0
                    (In-map hours_dto (row_listed d h m n i)) in
                absurd (ground (arith, o, w))
          ]
          | inr (x, e) ↦ elim (hours_map-In _ _ day x e) [
            | inr n ↦ absurd (cc)
            | inl (i, w) ↦
                let (y, j, q) = map-In hours_dto _ i in
                let (h, n, o, p) = listed_row d.id j in
                e
                ∙ sym (
                    In-find_hours d.id day db.opening_hours h v n o
                      (ap (λ (z : OpeningHours). z.weekday) p
                        ∙ ap (λ (z : Booking.OpeningHours). z.weekday) q
                        ∙ w)
                      (ap hours_dto p ∙ q))
          ]
        ]
