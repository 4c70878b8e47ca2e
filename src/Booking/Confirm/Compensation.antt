-- ===== src/Booking/Confirm/Compensation.antt =====
-- confirmWithoutHold of backend/services/booking/service.go and the claims at the allocators.
use unified_service_schedule.Common.{
  ℕ, String, ◌≡◌, ◌≢◌, refl, Option, none, some, arith, Result, ok, err,
}
use unified_service_schedule.Rpc.{Code}
use unified_service_schedule.Technician.Server as TechServer
use unified_service_schedule.Bay.Server as BayServer
use unified_service_schedule.Booking.Types.{
  BookingError, not_found, StoreError, AppointmentRow, ConfirmRequest, Appointment,
}
use unified_service_schedule.Booking.Hours.{Snapshot}
use unified_service_schedule.Booking.Clients.{TechClient, BayClient, StoreClient, Env, World}
use unified_service_schedule.Booking.Laws.{ConfirmingAccounts, InsertsAsGiven}
use unified_service_schedule.Booking.Saga.{confirm_both, confirm_bay_after}
use unified_service_schedule.Booking.Saga.Compensation.{
  NoNewClaims, OnlyNew, release_both-NoNewClaims,
}
use unified_service_schedule.Booking.Service.{hold_part, admit, claim_row}
use unified_service_schedule.Booking.Service.Holds.{RowSettles, claim_row-RowSettles}
use unified_service_schedule.Booking.Confirm.{
  release_and_fail, after_failed_promote, after_promote, after_confirm_both, promote_claimed,
  promote_confirmed, read_back, get_promoted, promote_and_get, replay, confirm_claimed,
  request_fingerprint, after_replay, confirm_admitted, confirm_without_hold,
}

abbrev pub TechConfirming : {T : Type 0} → TechClient T → Type 0
TechConfirming tech =
    ConfirmingAccounts tech.reserve tech.confirm tech.release
      (λ (r : TechServer.ReserveResponse). r.occupation_id)

abbrev pub BayConfirming : {B : Type 0} → BayClient B → Type 0
BayConfirming bay =
    ConfirmingAccounts bay.reserve bay.confirm bay.release
      (λ (r : BayServer.ReserveResponse). r.occupation_id)

module _ {T B S : Type 0} (tech : TechClient T) (bay : BayClient B) (store : StoreClient S)
    (env : Env) (tc : TechConfirming tech) (bc : BayConfirming bay)
    (given : InsertsAsGiven store) where
  abbrev Clean : World T B S → World T B S → Type 0
  Clean = NoNewClaims tech bay tc.reliable bc.reliable

  abbrev Only : String → String → World T B S → World T B S → Type 0
  Only = OnlyNew tech bay tc.reliable bc.reliable

  -- A call that fails, but for a row that it cannot read back, has left no claim.
  abbrev pub CleanUnlessLost :
      {A : Type 0} → World T B S → Result BookingError A × World T B S → Type 0
  CleanUnlessLost w (ok a, v) = Unit {0}
  CleanUnlessLost w (err e, v) = e ≢ not_found → Clean w v

  abbrev CleanIfFailed : {A : Type 0} → World T B S → Result BookingError A × World T B S → Type 0
  CleanIfFailed w (ok a, v) = Unit {0}
  CleanIfFailed w (err e, v) = Clean w v

  confirm_bay_after-Only :
      (t b id : String) (r : Result Code (Unit {0})) (w v : World T B S)
      → Only t b w v
      → Only t b w (confirm_bay_after tech bay r id v).1
  unfolding confirm_bay_after
  confirm_bay_after-Only t b id (err c) w v o = o
  confirm_bay_after-Only t b id (ok u) w v o = record {
    tech_named = o.tech_named;
    bay_named = o.bay_named;
    tech_claims = o.tech_claims;
    bay_claims = λ x ne h. o.bay_claims x ne (bc.confirms v.bay id x h);
  }

  confirm_both-Only :
      (t b : String) (w v : World T B S) → Only t b w v → Only t b w (confirm_both tech bay t b v).1
  unfolding confirm_both
  confirm_both-Only t b w v o =
      let (r, t') = tech.confirm t v.tech in
      confirm_bay_after-Only t b b r w (record { tech = t'; bay = v.bay; store = v.store })
        (record {
          tech_named = o.tech_named;
          bay_named = o.bay_named;
          tech_claims = λ x ne h. o.tech_claims x ne (tc.confirms v.tech t x h);
          bay_claims = o.bay_claims;
        })

  -- the store's calls leave the claims alone
  with_store :
      (t b : String) (s : S) (w v : World T B S)
      → Only t b w v
      → Only t b w (record { tech = v.tech; bay = v.bay; store = s })
  with_store t b s w v o = record {
    tech_named = o.tech_named;
    bay_named = o.bay_named;
    tech_claims = o.tech_claims;
    bay_claims = o.bay_claims;
  }

  after_failed_promote-Clean :
      (t b : String) (e : StoreError) (r : Result StoreError AppointmentRow) (w v : World T B S)
      → Only t b w v
      → CleanIfFailed w (after_failed_promote tech bay store env b t e r v)
  unfolding after_failed_promote release_and_fail
  after_failed_promote-Clean t b e (err x) w v o =
      release_both-NoNewClaims tech bay tc.reliable bc.reliable t b w v o
  after_failed_promote-Clean t b e (ok cur) w v o =
      ground (arith, release_both-NoNewClaims tech bay tc.reliable bc.reliable t b w v o)

  after_promote-Clean :
      (id t b : String) (r : Result StoreError AppointmentRow) (w v : World T B S)
      → Only t b w v
      → CleanIfFailed w (after_promote tech bay store env id b t r v)
  unfolding after_promote
  after_promote-Clean id t b (ok x) w v o = tt
  after_promote-Clean id t b (err e) w v o =
      let (cur, s) = store.get id v.store in
      after_failed_promote-Clean t b e cur w (record { tech = v.tech; bay = v.bay; store = s })
        (with_store t b s w v o)

  after_confirm_both-Clean :
      (id t b key fp : String) (r : Result Code (Unit {0})) (w v : World T B S)
      → Only t b w v
      → CleanIfFailed w (after_confirm_both tech bay store env id b t key fp r v)
  unfolding after_confirm_both release_and_fail
  after_confirm_both-Clean id t b key fp (err c) w v o =
      release_both-NoNewClaims tech bay tc.reliable bc.reliable t b w v o
  after_confirm_both-Clean id t b key fp (ok u) w v o =
      let (r, s) = store.promote id key fp v.store in
      after_promote-Clean id t b r w (record { tech = v.tech; bay = v.bay; store = s })
        (with_store t b s w v o)

  promote_confirmed-Clean :
      (row : AppointmentRow) (key fp t b : String) (w v : World T B S)
      → row.tech_occupation_id ≡ some t
      → row.bay_occupation_id ≡ some b
      → Only t b w v
      → CleanIfFailed w (promote_confirmed tech bay store env row key fp v)
  unfolding promote_confirmed promote_claimed
  promote_confirmed-Clean row key fp t b w v et eb o =
      rw (et, eb)
        (let (r, u) = confirm_both tech bay t b v in
          after_confirm_both-Clean row.id t b key fp r w u (confirm_both-Only t b w v o))

  read_back-Clean :
      (r : Result StoreError AppointmentRow) (w v : World T B S)
      → CleanUnlessLost w (read_back tech bay store env r, v)
  unfolding read_back
  read_back-Clean (err x) w v = λ ne. absurd (ne refl)
  read_back-Clean (ok out) w v = tt

  get_promoted-Clean :
      (id : String) (r : Result BookingError (Unit {0})) (w v : World T B S)
      → CleanIfFailed w (r, v)
      → CleanUnlessLost w (get_promoted tech bay store env id r v)
  unfolding get_promoted
  get_promoted-Clean id (err e) w v c = λ ne. c
  get_promoted-Clean id (ok u) w v c =
      let (out, s) = store.get id v.store in
      read_back-Clean out w (record { tech = v.tech; bay = v.bay; store = s })

  confirm_claimed-Clean :
      (key : String) (req : ConfirmRequest) (r : Result BookingError AppointmentRow)
      (w v : World T B S)
      → RowSettles tech bay store env tc.reliable bc.reliable given w (r, v)
      → CleanUnlessLost w (confirm_claimed tech bay store env key req r v)
  unfolding confirm_claimed promote_and_get
  confirm_claimed-Clean key req (err e) w v h = λ ne. h
  confirm_claimed-Clean key req (ok row) w v h =
      let (r, u) =
        promote_confirmed tech bay store env row key (request_fingerprint env req "") v in
      get_promoted-Clean row.id r w u (
        promote_confirmed-Clean row key (request_fingerprint env req "") h.tech_id h.bay_id w v
          h.tech_occupation h.bay_occupation h.only)

  -- from a world with the same allocators
  from_same :
      {A : Type 0} (w v : World T B S) (r : Result BookingError A × World T B S)
      → v.tech ≡ w.tech
      → v.bay ≡ w.bay
      → CleanUnlessLost v r
      → CleanUnlessLost w r
  from_same w v (ok a, u) et eb h = tt
  from_same w v (err e, u) et eb h = λ ne. record {
    tech_claims = λ x l. rw et at ((h ne).tech_claims x l);
    bay_claims = λ x l. rw eb at ((h ne).bay_claims x l);
  }

  replay-same :
      (key : String) (req : ConfirmRequest) (w : World T B S)
      → ((replay tech bay store env key req w).1.tech ≡ w.tech)
        × ((replay tech bay store env key req w).1.bay ≡ w.bay)
  unfolding replay
  replay-same key req w = ground arith

  after_replay-Clean :
      (rid key : String) (req : ConfirmRequest) (start : ℕ) (snap : Snapshot)
      (r : Result BookingError (Option Appointment)) (w : World T B S)
      → CleanUnlessLost w (after_replay tech bay store env rid key req start snap r w)
  unfolding after_replay
  after_replay-Clean rid key req start snap (err e) w =
      λ ne. record { tech_claims = λ x h. h; bay_claims = λ x h. h }
  after_replay-Clean rid key req start snap (ok (some appt)) w = tt
  after_replay-Clean rid key req start snap (ok none) w =
      let (r, v) = claim_row tech bay store env rid (hold_part req) start snap w in
      confirm_claimed-Clean key req r w v (
        claim_row-RowSettles tech bay store env tc.reliable bc.reliable given rid (hold_part req)
          start snap w)

  confirm_admitted-Clean :
      (rid key : String) (req : ConfirmRequest) (a : Result BookingError (ℕ × Snapshot))
      (w : World T B S)
      → CleanUnlessLost w (confirm_admitted tech bay store env rid key req a w)
  unfolding confirm_admitted
  confirm_admitted-Clean rid key req (err e) w =
      λ ne. record { tech_claims = λ x h. h; bay_claims = λ x h. h }
  confirm_admitted-Clean rid key req (ok (start, snap)) w =
      let (r, v) = replay tech bay store env key req w in
      let same = replay-same key req w in
      from_same w v (after_replay tech bay store env rid key req start snap r v) same.0 same.1
        (after_replay-Clean rid key req start snap r v)

  -- If the allocators' Release calls all go through, their Confirm calls make no claim live and
  -- the store inserts rows as they are given, a confirmation without a hold that fails leaves no
  -- claim at either allocator that did not live before; but for one that answers not_found, since
  -- it could not read back the row that it had promoted.
  pub confirm_without_hold_compensates :
      (now : ℕ) (rid key : String) (req : ConfirmRequest) (w : World T B S)
      → CleanUnlessLost w (confirm_without_hold tech bay store env now rid key req w)
  unfolding confirm_without_hold
  confirm_without_hold_compensates now rid key req w =
      confirm_admitted-Clean rid key req (admit env now (hold_part req)) w
