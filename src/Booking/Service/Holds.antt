-- ===== src/Booking/Service/Holds.antt =====
-- CreateHold of backend/services/booking/service.go and the claims at the allocators.
use unified_service_schedule.Common.{ℕ, String, ◌≡◌, refl, ◌∙◌, some, Result, ok, err}
use unified_service_schedule.Booking.Types.{BookingError, StoreError, AppointmentRow, HoldRequest}
use unified_service_schedule.Booking.Hours.{Snapshot}
use unified_service_schedule.Booking.Clients.{TechClient, BayClient, StoreClient, Env, World}
use unified_service_schedule.Booking.Laws.{InsertsAsGiven}
use unified_service_schedule.Booking.Saga.{SagaResult, reserve_saga}
use unified_service_schedule.Booking.Saga.Compensation.{
  TechAccounts, BayAccounts, NoNewClaims, OnlyNew, Settles, release_both-NoNewClaims,
  reserve_saga-Settles,
}
use unified_service_schedule.Booking.Service.{
  new_row, admit, inserted_or_released, insert_reserved, claim_row, to_appointments, hold_admitted,
  create_hold,
}

module _ {T B S : Type 0} (tech : TechClient T) (bay : BayClient B) (store : StoreClient S)
    (env : Env) (ta : TechAccounts tech) (ba : BayAccounts bay) (given : InsertsAsGiven store) where
  -- The claims of the row are the only new ones.
  pub record Claimed (row : AppointmentRow) (w w' : World T B S) : Type 0 where
    pub tech_id : String
    pub bay_id : String
    pub tech_occupation : row.tech_occupation_id ≡ some tech_id
    pub bay_occupation : row.bay_occupation_id ≡ some bay_id
    pub only : OnlyNew tech bay ta ba tech_id bay_id w w'

  abbrev pub RowSettles : World T B S → Result BookingError AppointmentRow × World T B S → Type 0
  RowSettles w (err e, w') = NoNewClaims tech bay ta ba w w'
  RowSettles w (ok row, w') = Claimed row w w'

  inserted-RowSettles :
      (res : SagaResult) (q : AppointmentRow) (r : Result StoreError AppointmentRow)
      (w v : World T B S)
      → q.tech_occupation_id ≡ some res.tech_occupation_id
      → q.bay_occupation_id ≡ some res.bay_occupation_id
      → OnlyNew tech bay ta ba res.tech_occupation_id res.bay_occupation_id w v
      → (store.insert_held q v.store).0 ≡ r
      → RowSettles w (
          inserted_or_released tech bay store env res r
            (record { tech = v.tech; bay = v.bay; store = (store.insert_held q v.store).1 }))
  unfolding inserted_or_released
  inserted-RowSettles res q (err e) w v qt qb o h =
      release_both-NoNewClaims tech bay ta ba res.tech_occupation_id res.bay_occupation_id w
        (record { tech = v.tech; bay = v.bay; store = (store.insert_held q v.store).1 })
        (record {
          tech_named = o.tech_named;
          bay_named = o.bay_named;
          tech_claims = o.tech_claims;
          bay_claims = o.bay_claims;
        })
  inserted-RowSettles res q (ok row) w v qt qb o h =
      let kept = given.as_given q v.store row h in
      record {
        tech_id = res.tech_occupation_id;
        bay_id = res.bay_occupation_id;
        tech_occupation = kept.3 ∙ qt;
        bay_occupation = kept.4 ∙ qb;
        only = record {
          tech_named = o.tech_named;
          bay_named = o.bay_named;
          tech_claims = o.tech_claims;
          bay_claims = o.bay_claims;
        };
      }

  insert_reserved-RowSettles :
      (req : HoldRequest) (start : ℕ) (r : Result BookingError SagaResult) (w v : World T B S)
      → Settles tech bay ta ba w (r, v)
      → RowSettles w (insert_reserved tech bay store env req start r v)
  unfolding insert_reserved new_row
  insert_reserved-RowSettles req start (err e) w v h = h
  insert_reserved-RowSettles req start (ok res) w v h =
      inserted-RowSettles res (new_row req start res) _ w v refl refl h refl

  pub claim_row-RowSettles :
      (rid : String) (req : HoldRequest) (start : ℕ) (snap : Snapshot) (w : World T B S)
      → RowSettles w (claim_row tech bay store env rid req start snap w)
  unfolding claim_row
  claim_row-RowSettles rid req start snap w =
      let (r, v) = reserve_saga tech bay env rid req.service_type_id snap start w in
      insert_reserved-RowSettles req start r w v
        (reserve_saga-Settles tech bay ta ba env rid req.service_type_id snap start w)

  -- What a call that may claim leaves behind when it fails.
  abbrev pub FailsClean : {A : Type 0} → World T B S → Result BookingError A × World T B S → Type 0
  FailsClean w (err e, w') = NoNewClaims tech bay ta ba w w'
  FailsClean w (ok a, w') = Unit {0}

  appointments-FailsClean :
      (r : Result BookingError AppointmentRow) (w v : World T B S)
      → RowSettles w (r, v)
      → FailsClean w (to_appointments tech bay store env r, v)
  appointments-FailsClean (err e) w v h = h
  appointments-FailsClean (ok row) w v h = tt

  hold_admitted-FailsClean :
      (rid : String) (req : HoldRequest) (a : Result BookingError (ℕ × Snapshot)) (w : World T B S)
      → FailsClean w (hold_admitted tech bay store env rid req a w)
  unfolding hold_admitted
  hold_admitted-FailsClean rid req (err e) w = record {
    tech_claims = λ x h. h;
    bay_claims = λ x h. h;
  }
  hold_admitted-FailsClean rid req (ok (start, snap)) w =
      let (r, v) = claim_row tech bay store env rid req start snap w in
      appointments-FailsClean r w v (claim_row-RowSettles rid req start snap w)

  -- If the allocators' Release calls all go through and the store inserts rows as they are given,
  -- a CreateHold that fails, at whatever step, leaves no claim at either allocator that did not
  -- live before.
  pub create_hold_compensates :
      (now : ℕ) (rid : String) (req : HoldRequest) (w : World T B S)
      → FailsClean w (create_hold tech bay store env now rid req w)
  unfolding create_hold
  create_hold_compensates now rid req w = hold_admitted-FailsClean rid req (admit env now req) w
