-- ===== src/Booking/Confirm/Promote.antt =====
-- What a success of promoteConfirmed and confirmHold has done; backend/services/booking/service.go.
use unified_service_schedule.Common.{
  ℕ, String, ◌≡◌, refl, Option, none, some, arith, Result, ok, err,
}
use unified_service_schedule.Rpc.{Code}
use unified_service_schedule.Booking.Types.{
  Status, held, confirmed, cancelled, BookingError, StoreError, AppointmentRow, Appointment,
  ConfirmRequest,
}
use unified_service_schedule.Booking.Clients.{TechClient, BayClient, StoreClient, Env, World}
use unified_service_schedule.Booking.Saga.{confirm_both, confirm_bay_after}
use unified_service_schedule.Booking.Confirm.{
  release_and_fail, after_failed_promote, after_promote, after_confirm_both, promote_claimed,
  promote_confirmed, read_back, get_promoted, promote_and_get, replay_row, confirm_by_status,
  confirm_found, confirm_hold,
}

module _ {T B S : Type 0} (tech : TechClient T) (bay : BayClient B) (store : StoreClient S)
    (env : Env) where
  -- The allocators are as the other world has them.
  pub record SameClaims (w w' : World T B S) : Type 0 where
    pub tech_same : w'.tech ≡ w.tech
    pub bay_same : w'.bay ≡ w.bay

  after_failed_promote-SameClaims :
      (bay_id tech_id : String) (e : StoreError) (r : Result StoreError AppointmentRow)
      (w : World T B S)
      → (after_failed_promote tech bay store env bay_id tech_id e r w).0 ≡ ok tt
      → SameClaims w (after_failed_promote tech bay store env bay_id tech_id e r w).1
  unfolding after_failed_promote release_and_fail
  after_failed_promote-SameClaims bay_id tech_id e (err x) w h = cc
  after_failed_promote-SameClaims bay_id tech_id e (ok cur) w h = ground arith

  after_promote-SameClaims :
      (id bay_id tech_id : String) (r : Result StoreError AppointmentRow) (w : World T B S)
      → (after_promote tech bay store env id bay_id tech_id r w).0 ≡ ok tt
      → SameClaims w (after_promote tech bay store env id bay_id tech_id r w).1
  unfolding after_promote
  after_promote-SameClaims id bay_id tech_id (ok x) w h = record {
    tech_same = refl;
    bay_same = refl;
  }
  after_promote-SameClaims id bay_id tech_id (err e) w h =
      let (cur, s) = store.get id w.store in
      let v : World T B S = record { tech = w.tech; bay = w.bay; store = s } in
      let k = after_failed_promote-SameClaims bay_id tech_id e cur v h in
      record { tech_same = k.tech_same; bay_same = k.bay_same }

  after_confirm_both-SameClaims :
      (id bay_id tech_id key fp : String) (r : Result Code (Unit {0})) (w : World T B S)
      → (after_confirm_both tech bay store env id bay_id tech_id key fp r w).0 ≡ ok tt
      → (r ≡ ok tt)
        × SameClaims w (after_confirm_both tech bay store env id bay_id tech_id key fp r w).1
  unfolding after_confirm_both release_and_fail
  after_confirm_both-SameClaims id bay_id tech_id key fp (err c) w h = cc
  after_confirm_both-SameClaims id bay_id tech_id key fp (ok u) w h =
      let (r, s) = store.promote id key fp w.store in
      let v : World T B S = record { tech = w.tech; bay = w.bay; store = s } in
      let k = after_promote-SameClaims id bay_id tech_id r v h in
      (refl, record { tech_same = k.tech_same; bay_same = k.bay_same })

  -- Both allocators have confirmed the row's occupations, and nothing was done to them since.
  pub record BothConfirmed (row : AppointmentRow) (w w' : World T B S) : Type 0 where
    pub tech_id : String
    pub bay_id : String
    pub tech_occupation : row.tech_occupation_id ≡ some tech_id
    pub bay_occupation : row.bay_occupation_id ≡ some bay_id
    pub tech_confirmed : tech.confirm tech_id w.tech ≡ (ok tt, w'.tech)
    pub bay_confirmed : bay.confirm bay_id w.bay ≡ (ok tt, w'.bay)

  confirm_bay_after-ok :
      (r : Result Code (Unit {0})) (bay_id : String) (w : World T B S)
      → (confirm_bay_after tech bay r bay_id w).0 ≡ ok tt
      → (r ≡ ok tt)
        × (bay.confirm bay_id w.bay ≡ (ok tt, (confirm_bay_after tech bay r bay_id w).1.bay))
        × ((confirm_bay_after tech bay r bay_id w).1.tech ≡ w.tech)
  unfolding confirm_bay_after
  confirm_bay_after-ok (err c) bay_id w h = cc
  confirm_bay_after-ok (ok u) bay_id w h = (refl, ground arith, refl)

  promote_claimed-BothConfirmed :
      (row : AppointmentRow) (key fp : String) (t b : Option String) (w : World T B S)
      → row.tech_occupation_id ≡ t
      → row.bay_occupation_id ≡ b
      → (promote_claimed tech bay store env row.id t b key fp w).0 ≡ ok tt
      → BothConfirmed row w (promote_claimed tech bay store env row.id t b key fp w).1
  unfolding promote_claimed confirm_both
  promote_claimed-BothConfirmed row key fp none b w et eb h = cc
  promote_claimed-BothConfirmed row key fp (some t) none w et eb h = cc
  promote_claimed-BothConfirmed row key fp (some t) (some b) w et eb h =
      let (r, t') = tech.confirm t w.tech in
      let v : World T B S = record { tech = t'; bay = w.bay; store = w.store } in
      let (c, u) = confirm_bay_after tech bay r b v in
      let (c_ok, same) = after_confirm_both-SameClaims row.id b t key fp c u h in
      let k = confirm_bay_after-ok r b v c_ok in
      record {
        tech_id = t;
        bay_id = b;
        tech_occupation = et;
        bay_occupation = eb;
        tech_confirmed = ground (arith, k.0, k.2, same.tech_same);
        bay_confirmed = ground (arith, k.1, same.bay_same);
      }

  read_back-code :
      (r : Result StoreError AppointmentRow) (appt : Appointment) (code : ℕ)
      → read_back tech bay store env r ≡ ok (appt, code)
      → code ≡ 201
  unfolding read_back
  read_back-code (err e) appt code h = cc
  read_back-code (ok out) appt code h = ground arith

  get_promoted-BothConfirmed :
      (row : AppointmentRow) (r : Result BookingError (Unit {0})) (w v : World T B S)
      (appt : Appointment) (code : ℕ)
      → (r ≡ ok tt → BothConfirmed row w v)
      → (get_promoted tech bay store env row.id r v).0 ≡ ok (appt, code)
      → (code ≡ 201) × BothConfirmed row w (get_promoted tech bay store env row.id r v).1
  unfolding get_promoted
  get_promoted-BothConfirmed row (err e) w v appt code c h = cc
  get_promoted-BothConfirmed row (ok u) w v appt code c h =
      let k = c refl in
      (
        read_back-code _ appt code h,
        record {
          tech_id = k.tech_id;
          bay_id = k.bay_id;
          tech_occupation = k.tech_occupation;
          bay_occupation = k.bay_occupation;
          tech_confirmed = k.tech_confirmed;
          bay_confirmed = k.bay_confirmed;
        },
      )

  promote_and_get-BothConfirmed :
      (row : AppointmentRow) (key fp : String) (w : World T B S) (appt : Appointment) (code : ℕ)
      → (promote_and_get tech bay store env row key fp w).0 ≡ ok (appt, code)
      → (code ≡ 201) × BothConfirmed row w (promote_and_get tech bay store env row key fp w).1
  unfolding promote_and_get promote_confirmed
  promote_and_get-BothConfirmed row key fp w appt code h =
      let (r, v) =
        promote_claimed tech bay store env row.id row.tech_occupation_id row.bay_occupation_id key
          fp w in
      get_promoted-BothConfirmed row r w v appt code
        (λ e. promote_claimed-BothConfirmed row key fp _ _ w refl refl e) h

  -- What Confirm of a hold has done when it answers 201: the row was HELD, and both allocators have
  -- confirmed its occupations.
  pub record HoldConfirmed (hold_id : String) (w w' : World T B S) : Type 0 where
    pub row : AppointmentRow
    pub got : (store.get hold_id w.store).0 ≡ ok row
    pub was_held : row.status ≡ held
    pub both : BothConfirmed row w w'

  replay_row-code :
      (row : AppointmentRow) (r : Result StoreError (Option AppointmentRow)) (appt : Appointment)
      (code : ℕ)
      → replay_row tech bay store env row r ≡ ok (appt, code)
      → code ≡ 200
  unfolding replay_row
  replay_row-code row (err e) appt code h = cc
  replay_row-code row (ok none) appt code h = ground arith
  replay_row-code row (ok (some prior)) appt code h = ground arith

  confirm_by_status-HoldConfirmed :
      (hold_id key : String) (row : AppointmentRow) (st : Status) (w : World T B S)
      (appt : Appointment)
      → (confirm_by_status tech bay store env st hold_id key row w).0 ≡ ok (appt, 201)
      → (st ≡ held)
        × BothConfirmed row w (confirm_by_status tech bay store env st hold_id key row w).1
  unfolding confirm_by_status
  confirm_by_status-HoldConfirmed hold_id key row held w appt h =
      (refl, (promote_and_get-BothConfirmed row key _ w appt 201 h).1)
  confirm_by_status-HoldConfirmed hold_id key row confirmed w appt h = absurd (
      ground (
        arith,
        replay_row-code row (store.get_confirmed_by_idempotency_key key w.store).0 appt 201,
      ))
  confirm_by_status-HoldConfirmed hold_id key row cancelled w appt h = cc

  confirm_found-HoldConfirmed :
      (hold_id key : String) (r : Result StoreError AppointmentRow) (w v : World T B S)
      (appt : Appointment)
      → (store.get hold_id w.store).0 ≡ r
      → SameClaims w v
      → (confirm_found tech bay store env hold_id key r v).0 ≡ ok (appt, 201)
      → HoldConfirmed hold_id w (confirm_found tech bay store env hold_id key r v).1
  unfolding confirm_found
  confirm_found-HoldConfirmed hold_id key (err e) w v appt g same h = cc
  confirm_found-HoldConfirmed hold_id key (ok row) w v appt g same h =
      let (was_held, k) = confirm_by_status-HoldConfirmed hold_id key row row.status v appt h in
      record {
        row = row;
        got = g;
        was_held = was_held;
        both = record {
          tech_id = k.tech_id;
          bay_id = k.bay_id;
          tech_occupation = k.tech_occupation;
          bay_occupation = k.bay_occupation;
          tech_confirmed = rw (← same.tech_same) k.tech_confirmed;
          bay_confirmed = rw (← same.bay_same) k.bay_confirmed;
        };
      }

  -- A Confirm of a hold answers 201 only after it read the row HELD and both allocators confirmed
  -- its two occupations, which nothing has touched since.
  pub confirm_hold-HoldConfirmed :
      (key : String) (req : ConfirmRequest) (w : World T B S) (appt : Appointment)
      → (confirm_hold tech bay store env key req w).0 ≡ ok (appt, 201)
      → HoldConfirmed req.hold_id w (confirm_hold tech bay store env key req w).1
  unfolding confirm_hold
  confirm_hold-HoldConfirmed key req w appt h =
      confirm_found-HoldConfirmed req.hold_id key _ w _ appt refl
        (record { tech_same = refl; bay_same = refl }) h
