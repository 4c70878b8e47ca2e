-- ===== src/Technician/History.antt =====
-- The technician server over its whole life.
use unified_service_schedule.Common.{ℕ, ◌≡◌, ◌≢◌, true, List, [], In}
use unified_service_schedule.Occupancy.{OccRow, Table, is_live}
use unified_service_schedule.Occupancy.Claim.{Turn}
use unified_service_schedule.Occupancy.History.{Call, HonestCalls, run, run-Reach}
use unified_service_schedule.Occupancy.Steps.{Apart, no_double_booking}
use unified_service_schedule.Technician.{Postgres, Roster}
use unified_service_schedule.Technician.Server.{ReserveRequest, handle_reserve}
use unified_service_schedule.Technician.Reserve.{handle_reserve-Reach}

module _ (pg : Postgres) (ro : Roster) where
  unfoldable pub reserve_table : ℕ → (ℕ → Turn) → ReserveRequest → Table → Table
  reserve_table now turns req t = (handle_reserve pg ro now turns req t).1

  -- the table after the calls, from an empty one
  unfoldable pub history : List (Call ReserveRequest) → Table
  history calls = run reserve_table calls []

  -- From an empty table, after any calls of Reserve, Confirm, Release and the reaper, with any faults
  -- and any statements of other servers in between, two different live claims of one technician do not
  -- meet.
  pub technician_not_double_booked :
      (calls : List (Call ReserveRequest)) (q r : OccRow)
      → HonestCalls calls
      → In q (history calls)
      → In r (history calls)
      → q.id ≢ r.id
      → q.resource_id ≡ r.resource_id
      → is_live q.status ≡ true
      → is_live r.status ≡ true
      → Apart q r
  unfolding history reserve_table
  technician_not_double_booked calls q r honest =
      no_double_booking q r (run-Reach reserve_table (handle_reserve-Reach pg ro) calls [] honest)
