-- ===== src/Booking/Confirm/Failure.antt =====
-- What a failure of promoteConfirmed of backend/services/booking/service.go does to the occupations
-- of its row.
use unified_service_schedule.Common.{String, ◌≡◌, ◌≢◌, false, some, eq_iff, arith, Result, ok, err}
use unified_service_schedule.Rpc.{Code}
use unified_service_schedule.Booking.Types.{
  confirmed, BookingError, unavailable, StoreError, AppointmentRow,
}
use unified_service_schedule.Booking.Clients.{TechClient, BayClient, StoreClient, Env, World}
use unified_service_schedule.Booking.Saga.{
  release_tech, release_bay, release_both, confirm_both, confirm_bay_after,
}
use unified_service_schedule.Booking.Saga.Compensation.{TechAccounts, BayAccounts}
use unified_service_schedule.Booking.Confirm.{
  release_and_fail, after_failed_promote, after_promote, after_confirm_both, promote_claimed,
  promote_confirmed,
}

module _ {T B S : Type 0} (tech : TechClient T) (bay : BayClient B) (store : StoreClient S)
    (env : Env) (ta : TechAccounts tech) (ba : BayAccounts bay) (t b : String) (tn : t ≢ "")
    (bn : b ≢ "") where
  -- Neither occupation is a live claim.
  abbrev pub Freed : World T B S → Type 0
  Freed w = (ta.live w.tech t ≡ false) × (ba.live w.bay b ≡ false)

  release_both-Freed : (w : World T B S) → Freed (release_both tech bay b t w).1
  unfolding release_both release_tech release_bay
  release_both-Freed w = ground (
    arith,
    eq_iff t "",
    eq_iff b "",
    ta.dropped w.tech t tn (ta.answers w.tech t tn),
    ba.dropped w.bay b bn (ba.answers w.bay b bn),
  )

  abbrev pub FreedIfFailed : Result BookingError (Unit {0}) × World T B S → Type 0
  FreedIfFailed (ok _, w) = Unit {0}
  FreedIfFailed (err e, w) = Freed w

  after_failed_promote-Freed :
      (e : StoreError) (r : Result StoreError AppointmentRow) (w : World T B S)
      → FreedIfFailed (after_failed_promote tech bay store env b t e r w)
  unfolding after_failed_promote release_and_fail
  after_failed_promote-Freed e (err x) w = release_both-Freed w
  after_failed_promote-Freed e (ok cur) w = ground (arith, release_both-Freed w)

  after_promote-Freed :
      (id : String) (r : Result StoreError AppointmentRow) (w : World T B S)
      → FreedIfFailed (after_promote tech bay store env id b t r w)
  unfolding after_promote
  after_promote-Freed id (ok x) w = tt
  after_promote-Freed id (err e) w =
      let (cur, s) = store.get id w.store in
      after_failed_promote-Freed e cur (record { tech = w.tech; bay = w.bay; store = s })

  after_confirm_both-Freed :
      (id key fp : String) (r : Result Code (Unit {0})) (w : World T B S)
      → FreedIfFailed (after_confirm_both tech bay store env id b t key fp r w)
  unfolding after_confirm_both release_and_fail
  after_confirm_both-Freed id key fp (err c) w = release_both-Freed w
  after_confirm_both-Freed id key fp (ok u) w =
      let (r, s) = store.promote id key fp w.store in
      after_promote-Freed id r (record { tech = w.tech; bay = w.bay; store = s })

  -- If the allocators' Release calls all go through, a promotion that fails has released both
  -- occupations of its row.
  pub promote_failure_frees :
      (row : AppointmentRow) (key fp : String) (w : World T B S)
      → row.tech_occupation_id ≡ some t
      → row.bay_occupation_id ≡ some b
      → FreedIfFailed (promote_confirmed tech bay store env row key fp w)
  unfolding promote_confirmed promote_claimed
  promote_failure_frees row key fp w et eb =
      rw (et, eb)
        (let (r, v) = confirm_both tech bay t b w in after_confirm_both-Freed row.id key fp r v)

  -- If the allocators' Release calls all go through, a promotion whose technician call fails
  -- releases both occupations of the row that it was given and leaves the store alone, also when
  -- the store has the appointment as CONFIRMED by then: it stays CONFIRMED with no live claim.
  pub stale_confirm_unclaims :
      (row cur : AppointmentRow) (key fp : String) (c : Code) (w : World T B S)
      → row.tech_occupation_id ≡ some t
      → row.bay_occupation_id ≡ some b
      → (store.get row.id w.store).0 ≡ ok cur
      → cur.status ≡ confirmed
      → (tech.confirm t w.tech).0 ≡ err c
      → let (r, w') = promote_confirmed tech bay store env row key fp w in
        (r ≡ err unavailable)
        × ((store.get row.id w'.store).0 ≡ ok cur)
        × (ta.live w'.tech t ≡ false)
        × (ba.live w'.bay b ≡ false)
  unfolding promote_confirmed promote_claimed confirm_both confirm_bay_after after_confirm_both
      release_and_fail release_both release_tech release_bay
  stale_confirm_unclaims row cur key fp c w et eb g st refused = ground (
    arith,
    eq_iff t "",
    eq_iff b "",
    ta.dropped (tech.confirm t w.tech).1 t tn (ta.answers (tech.confirm t w.tech).1 t tn),
    ba.dropped w.bay b bn (ba.answers w.bay b bn),
  )
