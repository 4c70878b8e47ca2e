-- ===== src/Booking/Recovery/Examples.antt =====
-- A hold whose time is up.
use unified_service_schedule.Common.{here, refl, arith, differ}
use unified_service_schedule.Technician.Client as TechDb
use unified_service_schedule.Bay.Client as BayDb
use unified_service_schedule.Booking.Store.{expired}
use unified_service_schedule.Booking.Store.Client as StoreDb
use unified_service_schedule.Booking.Clients.{World}
use unified_service_schedule.Booking.Recovery.{sweep_once}
use unified_service_schedule.Booking.Recovery.Sweep.{Freed}
use unified_service_schedule.Booking.Recovery.Cleared.{AreCleared}
use unified_service_schedule.Booking.Recovery.Recovered.{sweep_once_recovers}
use unified_service_schedule.Booking.Fixture.{
  row_uuid, tech, bay, store, row, with_hold, tech_accounts, bay_accounts,
}

-- The clock stands at the hold's expiry.
abbrev late : World TechDb.Db BayDb.Db StoreDb.Db
late = with_hold 120000005 row

sweep_once_recovers_example :
    let v = (sweep_once tech bay store late).1 in
    Freed tech bay store tech_accounts bay_accounts "t1" "b1" v × AreCleared "a1" v.store.rows
sweep_once_recovers_example =
    sweep_once_recovers tech bay row_uuid tech_accounts bay_accounts "t1" "b1" (differ "t1" "" refl)
      (differ "b1" "" refl) row late (here refl) (unfold expired in refl)
      (unfold expired in omega arith) refl refl
