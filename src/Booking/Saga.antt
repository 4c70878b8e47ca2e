-- ===== src/Booking/Saga.antt =====
-- backend/services/booking/saga.go: the reserve order technician, bay, and its compensation.
pub mod Compensation
pub mod InTime
use unified_service_schedule.Common.{
  ℕ, String, Bool, Option, none, some, ◌==◌, if◌then◌else◌, Result, ok, err,
}
use unified_service_schedule.Rpc.{Code}
use unified_service_schedule.Technician.Server as TechServer
use unified_service_schedule.Bay.Server as BayServer
use unified_service_schedule.Booking.Types.{BookingError, unavailable, invalid}
use unified_service_schedule.Booking.Hours.{Snapshot, latest_end}
use unified_service_schedule.Booking.Clients.{TechClient, BayClient, StoreClient, Env, World}

pub record SagaResult : Type 0 where
  pub tech_occupation_id : String
  pub bay_occupation_id : String
  pub technician_id : String
  pub service_bay_id : String
  pub end : ℕ

-- A call of the service: it sees the components, and leaves them changed.
abbrev pub Action : Type 0 → Type 0 → Type 0 → Type 0 → Type 0
Action T B S A = World T B S → A × World T B S

infixl 5 ◌>>=◌ ◌>>◌
abbrev pub ◌>>=◌ : {T B S A C : Type 0} → Action T B S A → (A → Action T B S C) → Action T B S C
◌>>=◌ m f w = let (a, w') = m w in f a w'

abbrev pub ◌>>◌ : {T B S A C : Type 0} → Action T B S A → Action T B S C → Action T B S C
◌>>◌ m k w = k (m w).1

abbrev pub pure : {T B S A : Type 0} → A → Action T B S A
pure a w = (a, w)

-- a call of one component
abbrev pub on_tech : {T B S A : Type 0} → (T → A × T) → Action T B S A
on_tech f w = let (a, t) = f w.tech in (a, record { tech = t; bay = w.bay; store = w.store })

abbrev pub on_bay : {T B S A : Type 0} → (B → A × B) → Action T B S A
on_bay f w = let (a, b) = f w.bay in (a, record { tech = w.tech; bay = b; store = w.store })

abbrev pub on_store : {T B S A : Type 0} → (S → A × S) → Action T B S A
on_store f w = let (a, s) = f w.store in (a, record { tech = w.tech; bay = w.bay; store = s })

module _ {T B S : Type 0} (tech : TechClient T) (bay : BayClient B) where
  unfoldable pub release_tech : String → Action T B S (Result Code (Unit {0}))
  release_tech id = if id == "" then pure (ok tt) else on_tech (tech.release id)

  unfoldable pub release_bay : String → Action T B S (Result Code (Unit {0}))
  release_bay id = if id == "" then pure (ok tt) else on_bay (bay.release id)

  -- bay first, then tech
  unfoldable pub release_both : String → String → Action T B S (Result Code (Unit {0}))
  unfolding release_tech release_bay
  release_both bay_id tech_id = do release_bay bay_id; release_tech tech_id

  unfoldable pub confirm_bay_after :
      Result Code (Unit {0}) → String → Action T B S (Result Code (Unit {0}))
  confirm_bay_after (err c) bay_id = pure (err c)
  confirm_bay_after (ok _) bay_id = on_bay (bay.confirm bay_id)

  unfoldable pub confirm_both : String → String → Action T B S (Result Code (Unit {0}))
  unfolding confirm_bay_after
  confirm_both tech_id bay_id = do r ← on_tech (tech.confirm tech_id); confirm_bay_after r bay_id

  after_bay :
      TechServer.ReserveResponse
      → Result Code BayServer.ReserveResponse
      → Action T B S (Result BookingError SagaResult)
  unfolding release_tech
  after_bay tr (err _) = do release_tech tr.occupation_id; pure (err unavailable)
  after_bay tr (ok br) = pure (
      ok (record {
        tech_occupation_id = tr.occupation_id;
        bay_occupation_id = br.occupation_id;
        technician_id = tr.technician_id;
        service_bay_id = br.service_bay_id;
        end = tr.end;
      }))

  after_tech :
      String
      → Snapshot
      → ℕ
      → Result Code TechServer.ReserveResponse
      → Action T B S (Result BookingError SagaResult)
  unfolding after_bay
  after_tech request_id snap start (err _) = pure (err unavailable)
  after_tech request_id snap start (ok tr) = do
    br ← on_bay (
        bay.reserve (record {
          dealership_id = snap.dealership_id;
          start = some start;
          end = some tr.end;
          request_id = request_id;
        }))
    after_bay tr br

  reserve_until :
      String → String → Snapshot → ℕ → Option ℕ → Action T B S (Result BookingError SagaResult)
  unfolding after_tech
  reserve_until request_id service_type_id snap start none = pure (err invalid)
  reserve_until request_id service_type_id snap start (some close_at) = do
    tr ← on_tech (
        tech.reserve (record {
          dealership_id = snap.dealership_id;
          service_type_id = service_type_id;
          start = some start;
          latest_end = some close_at;
          request_id = request_id;
        }))
    after_tech request_id snap start tr

  unfoldable pub reserve_saga :
      Env → String → String → Snapshot → ℕ → Action T B S (Result BookingError SagaResult)
  unfolding reserve_until
  reserve_saga env request_id service_type_id snap start =
      reserve_until request_id service_type_id snap start (latest_end env.zones snap start)
