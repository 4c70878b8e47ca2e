-- ===== src/Booking/Allocators.antt =====
-- The servers of this repository behind the interfaces of the booking service.
use unified_service_schedule.Common.{String, ◌≡◌, Bool, ◌&&◌, ◌==◌, any}
use unified_service_schedule.Occupancy.{Table, is_live}
use unified_service_schedule.Occupancy.Claim.Live.{live}
use unified_service_schedule.Booking.Clients.{TechClient, BayClient}
use unified_service_schedule.Technician.Client as Technician
use unified_service_schedule.Bay.Client as Bay
use unified_service_schedule.Booking.Store.Client as Store
use unified_service_schedule.Booking.Confirm.Compensation.{TechConfirming, BayConfirming}

-- The ids of the live rows of a table.
abbrev pub has_claim : Table → String → Bool
has_claim t id = any (λ r. (r.id == id) && is_live r.status) t

-- The accounts of an allocator are about the live rows of its table.
abbrev pub TechAccountsOfRows : TechClient Technician.Db → Type 0
TechAccountsOfRows tech =
    (laws : TechConfirming tech) × ((db : Technician.Db) (id : String)
      → laws.reliable.live db id ≡ has_claim db.table id)

abbrev pub BayAccountsOfRows : BayClient Bay.Db → Type 0
BayAccountsOfRows bay =
    (laws : BayConfirming bay) × ((db : Bay.Db) (id : String)
      → laws.reliable.live db id ≡ has_claim db.table id)
