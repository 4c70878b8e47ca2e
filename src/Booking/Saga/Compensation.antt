-- ===== src/Booking/Saga/Compensation.antt =====
-- The claims before and after reserveSaga of backend/services/booking/saga.go.
use unified_service_schedule.Common.{
  ℕ, String, ◌≡◌, ◌≢◌, refl, true, Option, none, some, eq_iff, arith, Result, ok, err,
}
use unified_service_schedule.Rpc.{Code}
use unified_service_schedule.Technician.Server as TechServer
use unified_service_schedule.Bay.Server as BayServer
use unified_service_schedule.Booking.Types.{BookingError}
use unified_service_schedule.Booking.Hours.{Snapshot, latest_end}
use unified_service_schedule.Booking.Clients.{TechClient, BayClient, Env, World}
use unified_service_schedule.Booking.Laws.{ReliableAccounts}
use unified_service_schedule.Booking.Saga.{
  SagaResult, release_tech, release_bay, release_both, after_bay, after_tech, reserve_until,
  reserve_saga,
}

abbrev pub TechAccounts : {T : Type 0} → TechClient T → Type 0
TechAccounts tech =
    ReliableAccounts tech.reserve tech.release (λ (r : TechServer.ReserveResponse). r.occupation_id)

abbrev pub BayAccounts : {B : Type 0} → BayClient B → Type 0
BayAccounts bay =
    ReliableAccounts bay.reserve bay.release (λ (r : BayServer.ReserveResponse). r.occupation_id)

module _ {T B S : Type 0} (tech : TechClient T) (bay : BayClient B) (ta : TechAccounts tech)
    (ba : BayAccounts bay) where
  -- Every claim that lives after lived before.
  pub record NoNewClaims (w w' : World T B S) : Type 0 where
    pub tech_claims : (x : String) → ta.live w'.tech x ≡ true → ta.live w.tech x ≡ true
    pub bay_claims : (x : String) → ba.live w'.bay x ≡ true → ba.live w.bay x ≡ true

  -- … but for the two named ones.
  pub record OnlyNew (tech_id bay_id : String) (w w' : World T B S) : Type 0 where
    pub tech_named : tech_id ≢ ""
    pub bay_named : bay_id ≢ ""
    pub tech_claims :
        (x : String) → x ≢ tech_id → ta.live w'.tech x ≡ true → ta.live w.tech x ≡ true
    pub bay_claims : (x : String) → x ≢ bay_id → ba.live w'.bay x ≡ true → ba.live w.bay x ≡ true

  -- What the saga leaves, by how it ended.
  abbrev pub Settles : World T B S → Result BookingError SagaResult × World T B S → Type 0
  Settles w (err e, w') = NoNewClaims w w'
  Settles w (ok res, w') = OnlyNew res.tech_occupation_id res.bay_occupation_id w w'

  NoNewClaims-refl : (w : World T B S) → NoNewClaims w w
  NoNewClaims-refl w = record { tech_claims = λ x h. h; bay_claims = λ x h. h }

  -- releasing a claim leaves none of that name and adds none
  release_tech-live :
      (id : String) (w : World T B S) (x : String)
      → id ≢ ""
      → ta.live (release_tech tech bay id w).1.tech x ≡ true
      → (x ≢ id) × (ta.live w.tech x ≡ true)
  unfolding release_tech
  release_tech-live id w x named h =
      let opened : ta.live (tech.release id w.tech).1 x ≡ true = ground (arith, eq_iff id "") in
      (
        λ p. ground (arith, ta.dropped w.tech id named (ta.answers w.tech id named), p, opened),
        ta.others w.tech id x opened,
      )

  release_bay-live :
      (id : String) (w : World T B S) (x : String)
      → id ≢ ""
      → ba.live (release_bay tech bay id w).1.bay x ≡ true
      → (x ≢ id) × (ba.live w.bay x ≡ true)
  unfolding release_bay
  release_bay-live id w x named h =
      let opened : ba.live (bay.release id w.bay).1 x ≡ true = ground (arith, eq_iff id "") in
      (
        λ p. ground (arith, ba.dropped w.bay id named (ba.answers w.bay id named), p, opened),
        ba.others w.bay id x opened,
      )

  release_tech-bay : (id : String) (w : World T B S) → (release_tech tech bay id w).1.bay ≡ w.bay
  unfolding release_tech
  release_tech-bay id w = ground arith

  release_bay-tech : (id : String) (w : World T B S) → (release_bay tech bay id w).1.tech ≡ w.tech
  unfolding release_bay
  release_bay-tech id w = ground arith

  -- Releasing both named claims leaves no new one.
  pub release_both-NoNewClaims :
      (tech_id bay_id : String) (w w' : World T B S)
      → OnlyNew tech_id bay_id w w'
      → NoNewClaims w (release_both tech bay bay_id tech_id w').1
  unfolding release_both
  release_both-NoNewClaims tech_id bay_id w w' o = record {
    tech_claims = λ x h.
        let (ne, l) =
          release_tech-live tech_id (release_bay tech bay bay_id w').1 x o.tech_named h in
        o.tech_claims x ne (rw release_bay-tech at l);
    bay_claims = λ x h.
        let k = rw (release_tech-bay tech_id (release_bay tech bay bay_id w').1) at h in
        let (ne, l) = release_bay-live bay_id w' x o.bay_named k in o.bay_claims x ne l;
  }

  -- after a granted technician: the answer of the bay
  after_bay-Settles :
      (tr : TechServer.ReserveResponse) (q : BayServer.ReserveRequest)
      (r : Result Code BayServer.ReserveResponse) (w v : World T B S)
      → tr.occupation_id ≢ ""
      → ((x : String) → x ≢ tr.occupation_id → ta.live v.tech x ≡ true → ta.live w.tech x ≡ true)
      → v.bay ≡ w.bay
      → (bay.reserve q v.bay).0 ≡ r
      → Settles w (
          after_bay tech bay tr r
            (record { tech = v.tech; bay = (bay.reserve q v.bay).1; store = v.store }))
  unfolding after_bay
  after_bay-Settles tr q (err c) w v named only same e =
      let u : World T B S = record {
        tech = v.tech;
        bay = (bay.reserve q v.bay).1;
        store = v.store;
      } in
      record {
        tech_claims =
            λ x h. let (ne, l) = release_tech-live tr.occupation_id u x named h in only x ne l;
        bay_claims = λ x h.
            let k = rw (release_tech-bay tr.occupation_id u) at h in
            rw same at (ba.refused q v.bay c x e k);
      }
  after_bay-Settles tr q (ok br) w v named only same e = record {
    tech_named = named;
    bay_named = ba.named q v.bay br e;
    tech_claims = only;
    bay_claims = λ x ne h. rw same at (ba.granted q v.bay br x e ne h);
  }

  after_tech-Settles :
      (rid : String) (snap : Snapshot) (start : ℕ) (q : TechServer.ReserveRequest)
      (r : Result Code TechServer.ReserveResponse) (w : World T B S)
      → (tech.reserve q w.tech).0 ≡ r
      → Settles w (
          after_tech tech bay rid snap start r
            (record { tech = (tech.reserve q w.tech).1; bay = w.bay; store = w.store }))
  unfolding after_tech
  after_tech-Settles rid snap start q (err c) w e = record {
    tech_claims = λ x h. ta.refused q w.tech c x e h;
    bay_claims = λ x h. h;
  }
  after_tech-Settles rid snap start q (ok tr) w e =
      after_bay-Settles tr _ _ w
        (record { tech = (tech.reserve q w.tech).1; bay = w.bay; store = w.store })
        (ta.named q w.tech tr e) (λ x ne h. ta.granted q w.tech tr x e ne h) refl refl

  reserve_until-Settles :
      (rid service : String) (snap : Snapshot) (start : ℕ) (close : Option ℕ) (w : World T B S)
      → Settles w (reserve_until tech bay rid service snap start close w)
  unfolding reserve_until
  reserve_until-Settles rid service snap start none w = NoNewClaims-refl w
  reserve_until-Settles rid service snap start (some c) w =
      after_tech-Settles rid snap start _ _ w refl

  -- The saga claims a technician and a bay, or nothing.
  pub reserve_saga-Settles :
      (env : Env) (rid service : String) (snap : Snapshot) (start : ℕ) (w : World T B S)
      → Settles w (reserve_saga tech bay env rid service snap start w)
  unfolding reserve_saga
  reserve_saga-Settles env rid service snap start w =
      reserve_until-Settles rid service snap start (latest_end env.zones snap start) w
