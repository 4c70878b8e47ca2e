-- ===== src/Booking/Saga/InTime.antt =====
-- The interval that reserveSaga of backend/services/booking/saga.go reserves, and the close.
use unified_service_schedule.Common.{
  ℕ, ◌<◌, ◌≤◌, String, ◌≡◌, refl, Option, none, some, arith, Result, ok, err,
}
use unified_service_schedule.Rpc.{Code}
use unified_service_schedule.Technician.Server as TechServer
use unified_service_schedule.Bay.Server as BayServer
use unified_service_schedule.Booking.Hours.{Snapshot, latest_end}
use unified_service_schedule.Booking.Clients.{TechClient, BayClient, Env, World}
use unified_service_schedule.Booking.Laws.{EndsInTime}
use unified_service_schedule.Booking.Saga.{
  SagaResult, after_bay, after_tech, reserve_until, reserve_saga,
}

module _ {T B S : Type 0} (tech : TechClient T) (bay : BayClient B) (timely : EndsInTime tech) where
  after_bay-end :
      (tr : TechServer.ReserveResponse) (r : Result Code BayServer.ReserveResponse)
      (w : World T B S) (res : SagaResult)
      → (after_bay tech bay tr r w).0 ≡ ok res
      → res.end ≡ tr.end
  unfolding after_bay
  after_bay-end tr (err c) w res h = cc
  after_bay-end tr (ok br) w res h = ground arith

  after_tech-InTime :
      (rid : String) (snap : Snapshot) (start close : ℕ) (q : TechServer.ReserveRequest)
      (r : Result Code TechServer.ReserveResponse) (t : T) (w : World T B S) (res : SagaResult)
      → q.start ≡ some start
      → q.latest_end ≡ some close
      → (tech.reserve q t).0 ≡ r
      → (after_tech tech bay rid snap start r w).0 ≡ ok res
      → (start < res.end) × (res.end ≤ close)
  unfolding after_tech
  after_tech-InTime rid snap start close q (err c) t w res qs ql e h = cc
  after_tech-InTime rid snap start close q (ok tr) t w res qs ql e h =
      let same = after_bay-end tr _ _ res h in
      let (lo, hi) = timely.in_time q t tr start close e qs ql in omega (arith, same, lo, hi)

  reserve_until-InTime :
      (rid service : String) (snap : Snapshot) (start close : ℕ) (o : Option ℕ) (w : World T B S)
      (res : SagaResult)
      → o ≡ some close
      → (reserve_until tech bay rid service snap start o w).0 ≡ ok res
      → (start < res.end) × (res.end ≤ close)
  unfolding reserve_until
  reserve_until-InTime rid service snap start close none w res e h = cc
  reserve_until-InTime rid service snap start close (some c) w res e h =
      after_tech-InTime rid snap start close _ _ w.tech _ res refl e refl h

  pub reserve_saga-InTime :
      (env : Env) (rid service : String) (snap : Snapshot) (start close : ℕ) (w : World T B S)
      (res : SagaResult)
      → latest_end env.zones snap start ≡ some close
      → (reserve_saga tech bay env rid service snap start w).0 ≡ ok res
      → (start < res.end) × (res.end ≤ close)
  unfolding reserve_saga
  reserve_saga-InTime env rid service snap start close w res e h =
      reserve_until-InTime rid service snap start close (latest_end env.zones snap start) w res e h
