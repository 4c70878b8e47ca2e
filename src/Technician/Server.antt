-- ===== src/Technician/Server.antt =====
-- The Reserve handler of the technician allocator.
use unified_service_schedule.Common.{
  ℕ, String, ◌||◌, Option, some, ◌==◌, ltb, if◌then◌else◌, Result, ok, err,
}
use unified_service_schedule.Occupancy.{Table}
use unified_service_schedule.Occupancy.Claim.{Occupation, Turn, ReserveError, reserve_code}
use unified_service_schedule.Rpc.{Code, invalid_argument}
use unified_service_schedule.Technician.{Postgres, Roster, ReserveParams, reserve}

-- A message field that is not set is `none`.
pub record ReserveRequest : Type 0 where
  pub dealership_id : String
  pub service_type_id : String
  pub start : Option ℕ
  pub latest_end : Option ℕ
  pub request_id : String

pub record ReserveResponse : Type 0 where
  pub occupation_id : String
  pub technician_id : String
  pub end : ℕ

unfoldable pub reply : Result ReserveError Occupation × Table → Result Code ReserveResponse × Table
reply (ok o, t) =
    (ok (record { occupation_id = o.id; technician_id = o.resource_id; end = o.end }), t)
reply (err e, t) = (err (reserve_code e), t)

unfoldable pub params : ReserveRequest → ℕ → ℕ → ReserveParams
params req start latest_end = record {
  dealership_id = req.dealership_id;
  service_type_id = req.service_type_id;
  start = start;
  latest_end = latest_end;
  request_id = req.request_id;
}

module _ (pg : Postgres) (ro : Roster) where
  -- The handler behind the test for nil.
  unfoldable pub reserve_at :
      ℕ
      → (ℕ → Turn)
      → ReserveRequest
      → Option ℕ
      → Option ℕ
      → Table
      → Result Code ReserveResponse × Table
  unfolding reply params
  reserve_at now turns req (some start) (some latest_end) t =
      if ltb now start
      then reply (reserve pg ro (params req start latest_end) turns t)
      else (err invalid_argument, t)
  reserve_at now turns req _ _ t = (err invalid_argument, t)

  -- `now` is time.Now(), the server's clock.
  unfoldable pub handle_reserve :
      ℕ → (ℕ → Turn) → ReserveRequest → Table → Result Code ReserveResponse × Table
  unfolding reserve_at
  handle_reserve now turns req t =
      if req.dealership_id == "" || req.service_type_id == ""
      then (err invalid_argument, t)
      else reserve_at now turns req req.start req.latest_end t
