-- ===== src/Catalog/Examples.antt =====
-- The listings of the Catalog of the fixture.
use unified_service_schedule.Common.{◌≡◌, false, [], ◌∷◌}
use unified_service_schedule.Mux.{get}
use unified_service_schedule.Booking.CatalogClient.{snapshot}
use unified_service_schedule.Catalog.{no_fault, rows_fail}
use unified_service_schedule.Catalog.Server.{
  dealerships, Faults, list_dealerships, joined_rows, serve,
}
use unified_service_schedule.Catalog.Grouping.{listing}
use unified_service_schedule.Catalog.Grouping.Listing.{list_dealerships-listing}
use unified_service_schedule.Catalog.Faults.{WholeOr500, no_faults, serve-WholeOr500}
use unified_service_schedule.Catalog.Wire.{served}
use unified_service_schedule.Catalog.Served.{known, snapshot-known}
use unified_service_schedule.Catalog.Fixture.{text_le, db, db-IsValid, wire, wire-IsFaithful}

list_dealerships-listing_example :
    list_dealerships text_le db no_fault ≡ dealerships (listing (joined_rows text_le db))
list_dealerships-listing_example = list_dealerships-listing text_le db

abbrev broken : Faults
broken = record { listing = rows_fail 2; customer_fails = false }

serve-WholeOr500_example :
    WholeOr500
      (serve text_le db broken get ("dealerships" ∷ []))
      (serve text_le db no_faults get ("dealerships" ∷ []))
serve-WholeOr500_example = serve-WholeOr500 text_le db broken get ("dealerships" ∷ [])

snapshot-known_example :
    snapshot (served text_le db wire) "north" "oil" "c" "v" ≡ known db "north" "oil" "c" "v"
snapshot-known_example =
    snapshot-known text_le db wire "c" wire-IsFaithful "north" "oil" "v" db-IsValid
