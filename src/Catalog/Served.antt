-- ===== src/Catalog/Served.antt =====
-- A snapshot that the booking service takes over the network, and the tables of the Catalog.
use unified_service_schedule.Common.{
  &&-left, &&-right, In, ℕ, String, ◌≡◌, inl, inr, refl, sym, ap, ◌∙◌, Bool, true, false, ◌&&◌,
  Option, none, some, List, map, arith, ◌==◌, eq_iff, any, not-any, any-sort_by, any-map,
  any-select, if◌then◌else◌, Bool-cases, Option-cases, Result, ok, err, fun_ext,
}
use unified_service_schedule.Booking.Hours.{Snapshot}
use unified_service_schedule.Booking.CatalogClient.{
  CatalogError, catalog_not_found, Read, read_body, get, find_dealership, check_service_type,
  check_vehicle, snapshot, hours_map,
}
use unified_service_schedule.Catalog.{Tables, DealershipRow, Vehicle, IsValid}
use unified_service_schedule.Catalog.Server.{
  dealerships, service_types, serve, handle, joined_rows, service_type_rows, vehicle_rows,
}
use unified_service_schedule.Catalog.Grouping.{listing}
use unified_service_schedule.Catalog.Grouping.Listing.{list_dealerships-listing}
use unified_service_schedule.Catalog.Faults.{
  no_faults, list_service_types-rows, vehicles_of_customer, no_customer,
}
use unified_service_schedule.Catalog.Dealers.{entry, dto_of, find_dealer-listing}
use unified_service_schedule.Catalog.Hours.{find_hours, hours_map-find_hours}
use unified_service_schedule.Catalog.Wire.{
  Delivered, last, more, hours_dto, type_dto, vehicle_dto, Wire, IsFaithful, respond, served,
}
use unified_service_schedule.Mux as Mux
use unified_service_schedule.Catalog.Rows.{find_row, entry-unlisted, entry-listed, find_row-In}
use unified_service_schedule.Booking.CatalogClient.Answered.{
  or_not_found, found_if, vouched_if, get_answered, find_dealership_answered,
  check_service_type_answered, check_vehicle_answered, check_vehicle_missing, snapshot_steps,
}

-- The read loop of the client reads what was sent.
pub read_body-Delivered : {bs : List ℕ} {rs : List Read} → Delivered bs rs → read_body rs ≡ bs
unfolding read_body
read_body-Delivered (last bs) = ground arith
read_body-Delivered (more bs rest e d) = rw (e, read_body-Delivered d) refl

-- The snapshot of a dealership's row.
unfoldable pub row_snapshot : Tables → DealershipRow → Snapshot
row_snapshot db d = record {
  dealership_id = d.id;
  timezone = d.timezone;
  opening_hours = λ day. find_hours d.id day db.opening_hours;
  service_type_ok = true;
  vehicle_belongs = true;
}

abbrev known_if : Tables → Bool → Option DealershipRow → Result CatalogError Snapshot
known_if db b none = err catalog_not_found
known_if db b (some d) = if b then ok (row_snapshot db d) else err catalog_not_found

-- What the tables know of the four ids.
unfoldable pub known : Tables → String → String → String → String → Result CatalogError Snapshot
unfolding row_snapshot
known db dealership service customer vehicle =
    known_if db
      (any (λ t. t.id == service) db.service_type
        && any (λ v. (v.customer_id == customer) && (v.id == vehicle)) db.vehicle)
      (find_row dealership db.dealership)

-- The client's reading of an entry is the snapshot of its row.
vouched_if-known :
    (text_le : String → String → Bool) (db : Tables) (b : Bool) (id : String)
    → IsValid db
    → vouched_if b (dto_of (entry id (joined_rows text_le db)))
      ≡ known_if db b (find_row id db.dealership)
unfolding row_snapshot
vouched_if-known text_le db b id v = elim (Option-cases (find_row id db.dealership)) [
  | inl e ↦ rw (e, entry-unlisted text_le db v id e) refl
  | inr (d, e) ↦
      let (m, _) = find_row-In id db.dealership d e in
      let (x, q, i, z, o) = entry-listed text_le db v id d e in
      let hours : hours_map (map hours_dto x.opening_hours) (λ _. none)
          ≡ (λ day. find_hours d.id day db.opening_hours) =
        ap (λ l. hours_map (map hours_dto l) (λ _. none)) o
        ∙ fun_ext (λ day. hours_map-find_hours text_le db d day m v.days) in
      rw (e, q, i, z, hours) refl
]

-- A customer who is not there has no vehicle.
no_vehicle :
    (db : Tables) (customer id : String)
    → IsValid db
    → any (λ c. c == customer) db.customer ≡ false
    → any (λ (v : Vehicle). (v.customer_id == customer) && (v.id == id)) db.vehicle ≡ false
no_vehicle db customer id valid h = not-any _ db.vehicle (λ v m.
    elim (Bool-cases (v.customer_id == customer)) [
      | inr e ↦ ground (arith, e)
      | inl e ↦
          let here : any (λ c. c == customer) db.customer ≡ true =
            rw⁻¹ ((eq_iff v.customer_id customer).0 e) (valid.owners v m) in
          absurd (cc (here, h))
    ])

module _ (text_le : String → String → Bool) (db : Tables) (w : Wire) (customer : String)
    (f : IsFaithful w text_le db customer) where
  get_served :
      (path : String) (bs : List ℕ)
      → (served text_le db w).request path ≡ some (record { status = 200; body = w.deliver bs })
      → get (served text_le db w) path ≡ some bs
  get_served path bs h =
      get_answered (served text_le db w) path (w.deliver bs) h
      ∙ ap some (read_body-Delivered (f.delivers bs))

  get-dealerships :
      get (served text_le db w) "/dealerships"
      ≡ some (w.encode (dealerships (listing (joined_rows text_le db))))
  unfolding respond serve handle
  get-dealerships = get_served "/dealerships" _ (
      ap (λ p. respond w (serve text_le db no_faults Mux.get p)) f.dealerships_path
      ∙ ap (respond w) (list_dealerships-listing text_le db))

  get-types :
      get (served text_le db w) "/service-types"
      ≡ some (w.encode (service_types (service_type_rows text_le db)))
  unfolding respond serve handle
  get-types = get_served "/service-types" _ (
      ap (λ p. respond w (serve text_le db no_faults Mux.get p)) f.types_path
      ∙ ap (respond w) (list_service_types-rows text_le db))

  -- The steps of the client, in the tables.
  find_dealership-entry :
      (id : String)
      → find_dealership (served text_le db w) id
        ≡ or_not_found (dto_of (entry id (joined_rows text_le db)))
  find_dealership-entry id =
      find_dealership_answered (served text_le db w) id _ _ get-dealerships
        (f.dealers_read _ (list_dealerships-listing text_le db))
      ∙ ap or_not_found (find_dealer-listing id (joined_rows text_le db))

  check_service_type-any :
      (id : String)
      → check_service_type (served text_le db w) id
        ≡ found_if (any (λ t. t.id == id) db.service_type)
  unfolding service_type_rows
  check_service_type-any id =
      check_service_type_answered (served text_le db w) id _ _ get-types
        (f.types_read _ (list_service_types-rows text_le db))
      ∙ ap found_if (
          any-map (λ t. t.id == id) type_dto (service_type_rows text_le db)
          ∙ any-sort_by (λ t. t.id == id) _ db.service_type)

  check_vehicle-any :
      (id : String)
      → IsValid db
      → check_vehicle (served text_le db w) customer id
        ≡ found_if (any (λ v. (v.customer_id == customer) && (v.id == id)) db.vehicle)
  unfolding respond serve handle vehicle_rows
  check_vehicle-any id v = elim (Bool-cases (any (λ c. c == customer) db.customer)) [
    | inl e ↦
        check_vehicle_answered (served text_le db w) customer id _ _
          (ap (λ p. respond w (serve text_le db no_faults Mux.get p)) f.vehicles_path
            ∙ ap (respond w) (vehicles_of_customer text_le db customer e))
          (f.vehicles_read _ (vehicles_of_customer text_le db customer e) (f.delivers _))
        ∙ ap found_if (
            any-map (λ x. x.id == id) vehicle_dto (vehicle_rows text_le db customer)
            ∙ any-sort_by (λ x. x.id == id) _ _
            ∙ any-select (λ x. x.id == id) (λ x. x.customer_id == customer) db.vehicle)
    | inr e ↦
        check_vehicle_missing (served text_le db w) customer id _ (
          ap (λ p. respond w (serve text_le db no_faults Mux.get p)) f.vehicles_path
          ∙ ap (respond w) (no_customer text_le db customer e))
        ∙ sym (ap found_if (no_vehicle db customer id v e))
  ]

  -- The snapshot that the client takes from the server is the one that the tables know: with the
  -- dealership's zone and, for each weekday, its row of opening_hours, if the dealership, the service
  -- type and a vehicle of the customer are there, and errCatalogNotFound if one of them is not. It
  -- holds for tables that keep their keys and a network and JSON that carry what is sent, in reads of
  -- any sizes.
  pub snapshot-known :
      (dealership service vehicle : String)
      → IsValid db
      → snapshot (served text_le db w) dealership service customer vehicle
        ≡ known db dealership service customer vehicle
  unfolding known
  snapshot-known dealership service vehicle v =
      snapshot_steps (served text_le db w) dealership service customer vehicle
        (dto_of (entry dealership (joined_rows text_le db))) _ _ (find_dealership-entry dealership)
        (check_service_type-any service) (check_vehicle-any vehicle v)
      ∙ vouched_if-known text_le db _ dealership v

known_if-ok :
    (db : Tables) (b : Bool) (o : Option DealershipRow) (snap : Snapshot)
    → known_if db b o ≡ ok snap
    → (d : DealershipRow) × (o ≡ some d) × (b ≡ true) × (row_snapshot db d ≡ snap)
known_if-ok db b none snap h = cc
known_if-ok db true (some d) snap h = (d, refl, refl, ground arith)
known_if-ok db false (some d) snap h = cc

-- What the tables must hold where a snapshot is known.
pub known-ok :
    (db : Tables) (dealership service customer vehicle : String) (snap : Snapshot)
    → known db dealership service customer vehicle ≡ ok snap
    → (d : DealershipRow) × In d db.dealership
      × (d.id ≡ dealership)
      × (row_snapshot db d ≡ snap)
      × (any (λ t. t.id == service) db.service_type ≡ true)
      × (any (λ v. (v.customer_id == customer) && (v.id == vehicle)) db.vehicle ≡ true)
unfolding known
known-ok db dealership service customer vehicle snap h =
    let (d, e, both, same) = known_if-ok db _ (find_row dealership db.dealership) snap h in
    let (m, i) = find_row-In dealership db.dealership d e in
    (d, m, i, same, &&-left _ _ both, &&-right _ _ both)
