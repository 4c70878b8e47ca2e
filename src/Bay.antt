-- ===== src/Bay.antt =====
-- The bay allocator: backend/services/bay/reserve.go over the schema of
-- backend/services/bay/migrations. Bays are alike: the interval comes with the request.
pub mod Server
pub mod Query
pub mod Reserve
pub mod History
pub mod Client
pub mod Fixture
mod Examples
use Prim.Native.String.{◌++◌ as append}
use unified_service_schedule.Common.{
  ℕ, String, Bool, not, ◌&&◌, Option, none, some, List, ◌==◌, select, least, Result, ok, err,
  if◌then◌else◌,
}
use unified_service_schedule.Occupancy.{Table, is_busy, update_confirmed, update_released}
use unified_service_schedule.Occupancy.Claim.{
  Picked, Occupation, Turn, ReserveError, claim_loop, max_reserve_attempts,
}
use unified_service_schedule.Rpc.{Code, invalid_argument, failed_precondition, internal_error}

pub record ServiceBay : Type 0 where
  pub id : String
  pub dealership_id : String
  pub active : Bool

-- `reserveParams`
pub record ReserveParams : Type 0 where
  pub dealership_id : String
  pub start : ℕ
  pub end : ℕ
  pub request_id : String

-- The WHERE clause of the claim.
unfoldable pub is_free : ReserveParams → Table → ServiceBay → Bool
is_free p occ b =
    (b.dealership_id == p.dealership_id) && b.active && not (is_busy b.id p.start p.end occ)

unfoldable pub picked : ReserveParams → Option ServiceBay → Option Picked
picked p none = none
picked p (some b) = some (record { resource_id = b.id; start_at = p.start; end_at = p.end })

-- ORDER BY hashtext(b.id::text || $4), with Postgres's hashtext as a number in the order of its
-- int4
unfoldable pub pick_hash : (String → ℕ) → ReserveParams → ServiceBay → ℕ
pick_hash hashtext p b = hashtext (append b.id p.request_id)

-- `bays` is the table service_bay.
module _ (hashtext : String → ℕ) (bays : List ServiceBay) where
  -- The SELECT of the claim.
  unfoldable pub pick : ReserveParams → Table → Option Picked
  unfolding picked is_free pick_hash
  pick p occ = picked p (least (pick_hash hashtext p) (select (is_free p occ) bays))

  unfoldable pub reserve :
      ReserveParams → (ℕ → Turn) → Table → Result ReserveError Occupation × Table
  unfolding pick
  reserve p turns occ = claim_loop (pick p) max_reserve_attempts turns occ

-- The handlers Confirm and Release: `fails` says that the driver reports an error of the UPDATE,
-- which then has changed nothing.
unfoldable pub confirm : Bool → ℕ → String → Table → Result Code (Unit {0}) × Table
confirm fails now id t =
    if id == ""
    then (err invalid_argument, t)
    else if fails
    then (err internal_error, t)
    else let (affected, u) = update_confirmed now id t in
      ((if affected then ok tt else err failed_precondition), u)

unfoldable pub release : Bool → String → Table → Result Code (Unit {0}) × Table
release fails id t =
    if id == ""
    then (err invalid_argument, t)
    else if fails
    then (err internal_error, t)
    else (ok tt, update_released id t)
