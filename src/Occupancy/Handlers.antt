-- ===== src/Occupancy/Handlers.antt =====
-- Confirm and Release: the two servers run the same code, each on its own table.
use unified_service_schedule.Common.{ℕ, String, Bool, ◌==◌, if◌then◌else◌, Result, ok, err}
use unified_service_schedule.Occupancy.{Table, update_confirmed, update_released}
use unified_service_schedule.Rpc.{Code, invalid_argument, failed_precondition, internal_error}

-- `fails` says that the driver reports an error of the UPDATE, which then has changed nothing.
unfoldable pub confirm : Bool → ℕ → String → Table → Result Code (Unit {0}) × Table
confirm fails now id t =
    if id == ""
    then (err invalid_argument, t)
    else if fails
    then (err internal_error, t)
    else let (affected, u) = update_confirmed now id t in
      (if affected then ok tt else err failed_precondition, u)

unfoldable pub release : Bool → String → Table → Result Code (Unit {0}) × Table
release fails id t =
    if id == ""
    then (err invalid_argument, t)
    else if fails
    then (err internal_error, t)
    else (ok tt, update_released id t)
