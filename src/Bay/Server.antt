-- ===== src/Bay/Server.antt =====
-- The Reserve handler of the bay allocator.
use unified_service_schedule.Common.{
  ℕ, String, Option, some, List, ◌==◌, ltb, if◌then◌else◌, Result, ok, err,
}
use unified_service_schedule.Occupancy.{Table}
use unified_service_schedule.Occupancy.Claim.{Occupation, Turn, ReserveError, reserve_code}
use unified_service_schedule.Rpc.{Code, invalid_argument}
use unified_service_schedule.Bay.{ServiceBay, ReserveParams, reserve}

-- A message field that is not set is `none`.
pub record ReserveRequest : Type 0 where
  pub dealership_id : String
  pub start : Option ℕ
  pub end : Option ℕ
  pub request_id : String

pub record ReserveResponse : Type 0 where
  pub occupation_id : String
  pub service_bay_id : String

unfoldable pub reply : Result ReserveError Occupation × Table → Result Code ReserveResponse × Table
reply (ok o, t) = (ok (record { occupation_id = o.id; service_bay_id = o.resource_id }), t)
reply (err e, t) = (err (reserve_code e), t)

unfoldable pub params : ReserveRequest → ℕ → ℕ → ReserveParams
params req s e = record {
  dealership_id = req.dealership_id;
  start = s;
  end = e;
  request_id = req.request_id;
}

module _ (hashtext : String → ℕ) (bays : List ServiceBay) where
  -- The handler behind the test for nil.
  unfoldable pub reserve_at :
      ℕ
      → (ℕ → Turn)
      → ReserveRequest
      → Option ℕ
      → Option ℕ
      → Table
      → Result Code ReserveResponse × Table
  unfolding reply params
  reserve_at now turns req (some s) (some e) t =
      if ltb s e
      then if ltb now s
        then reply (reserve hashtext bays (params req s e) turns t)
        else (err invalid_argument, t)
      else (err invalid_argument, t)
  reserve_at now turns req _ _ t = (err invalid_argument, t)

  -- `now` is time.Now(), the server's clock.
  unfoldable pub handle_reserve :
      ℕ → (ℕ → Turn) → ReserveRequest → Table → Result Code ReserveResponse × Table
  unfolding reserve_at
  handle_reserve now turns req t =
      if req.dealership_id == ""
      then (err invalid_argument, t)
      else reserve_at now turns req req.start req.end t
