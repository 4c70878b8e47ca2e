-- ===== src/Booking/Service/Hours.antt =====
-- The interval of the hold that CreateHold of backend/services/booking/service.go reports.
use unified_service_schedule.Common.{
  ℕ, ◌<◌, ◌≤◌, String, ◌≡◌, refl, ap, ◌∙◌, true, ◌&&◌, &&-left, Option, none, some, arith, ltb,
  ltb→lt, Result, ok, err, Bool-cases, inl, inr,
}
use unified_service_schedule.Booking.Types.{
  held, BookingError, StoreError, AppointmentRow, HoldRequest, Appointment,
}
use unified_service_schedule.Booking.Hours.{
  Snapshot, latest_end, within_hours, Open, within_hours-Open,
}
use unified_service_schedule.Booking.Clients.{TechClient, BayClient, StoreClient, Env, World}
use unified_service_schedule.Booking.CatalogClient.{CatalogError}
use unified_service_schedule.Booking.Laws.{EndsInTime, InsertsAsGiven}
use unified_service_schedule.Booking.Saga.{SagaResult}
use unified_service_schedule.Booking.Saga.InTime.{reserve_saga-InTime}
use unified_service_schedule.Booking.Service.{
  to_appointment, new_row, admit, inserted_or_released, insert_reserved, claim_row, to_appointments,
  hold_admitted, create_hold,
}

-- What a request passes before anything is claimed.
pub record Admitted (env : Env) (now : ℕ) (req : HoldRequest) (start : ℕ) (snap : Snapshot)
    : Type 0 where
  pub parsed : env.parse_start req.start ≡ some start
  pub snapped :
      env.snapshot req.dealership_id req.service_type_id req.customer_id req.vehicle_id ≡ ok snap
  pub future : now < start
  pub within : within_hours env.zones snap start ≡ true

hours-Admitted :
    (env : Env) (now : ℕ) (req : HoldRequest) (o : Option ℕ) (r : Result CatalogError Snapshot)
    (start : ℕ) (snap : Snapshot)
    → env.parse_start req.start ≡ o
    → env.snapshot req.dealership_id req.service_type_id req.customer_id req.vehicle_id ≡ r
    → admit env now req ≡ ok (start, snap)
    → Admitted env now req start snap
unfolding admit
hours-Admitted env now req none r start snap p q h = ground (arith, p)
hours-Admitted env now req (some s) (err e) start snap p q h = ground (arith, p, q)
hours-Admitted env now req (some s) (ok n) start snap p q h =
    elim (Bool-cases (ltb now s && within_hours env.zones n s)) [
      | inr k ↦ absurd (ground (arith, p, q, k))
      | inl k ↦
          let same : s ≡ start = ground (arith, p, q, k) in
          let same_snap : n ≡ snap = ground (arith, p, q, k) in
          record {
            parsed = p ∙ ap (λ (x : ℕ). some x) same;
            snapped = q ∙ ap (λ (x : Snapshot). ok x) same_snap;
            future = rw same at (ltb→lt now s (&&-left _ _ k));
            within = ground (arith, same, same_snap);
          }
    ]

module _ {T B S : Type 0} (tech : TechClient T) (bay : BayClient B) (store : StoreClient S)
    (env : Env) (timely : EndsInTime tech) (given : InsertsAsGiven store) where
  -- A row of the interval that was reserved.
  abbrev InTime : ℕ → ℕ → AppointmentRow → Type 0
  InTime start close row =
      (row.status ≡ held) × (row.start_at ≡ start) × (start < row.end_at) × (row.end_at ≤ close)

  inserted-InTime :
      (start close : ℕ) (res : SagaResult) (q : AppointmentRow)
      (r : Result StoreError AppointmentRow) (s : S) (w : World T B S) (row : AppointmentRow)
      → (start < res.end) × (res.end ≤ close)
      → q.start_at ≡ start
      → q.end_at ≡ res.end
      → (store.insert_held q s).0 ≡ r
      → (inserted_or_released tech bay store env res r w).0 ≡ ok row
      → InTime start close row
  unfolding inserted_or_released
  inserted-InTime start close res q (err e) s w row t qs qe i h = cc
  inserted-InTime start close res q (ok x) s w row t qs qe i h =
      let kept = given.as_given q s x i in
      let same : x ≡ row = ground arith in
      rw (← same) (kept.0, kept.1 ∙ qs, omega (arith, kept.2, qe), omega (arith, kept.2, qe))

  insert_reserved-InTime :
      (req : HoldRequest) (start close : ℕ) (r : Result BookingError SagaResult) (w : World T B S)
      (row : AppointmentRow)
      → ((res : SagaResult) → r ≡ ok res → (start < res.end) × (res.end ≤ close))
      → (insert_reserved tech bay store env req start r w).0 ≡ ok row
      → InTime start close row
  unfolding insert_reserved new_row
  insert_reserved-InTime req start close (err e) w row t h = cc
  insert_reserved-InTime req start close (ok res) w row t h =
      inserted-InTime start close res (new_row req start res) _ w.store _ row (t res refl) refl refl
        refl h

  claim_row-InTime :
      (rid : String) (req : HoldRequest) (start close : ℕ) (snap : Snapshot) (w : World T B S)
      (row : AppointmentRow)
      → latest_end env.zones snap start ≡ some close
      → (claim_row tech bay store env rid req start snap w).0 ≡ ok row
      → InTime start close row
  unfolding claim_row
  claim_row-InTime rid req start close snap w row e h =
      insert_reserved-InTime req start close _ _ row
        (λ res.
          reserve_saga-InTime tech bay timely env rid req.service_type_id snap start close w res e)
        h

  to_appointments-ok :
      (r : Result BookingError AppointmentRow) (appt : Appointment)
      → to_appointments tech bay store env r ≡ ok appt
      → (row : AppointmentRow) × (r ≡ ok row) × (appt ≡ to_appointment row)
  to_appointments-ok (err e) appt h = cc
  to_appointments-ok (ok row) appt h = (row, refl, ground arith)

  -- The hold that was reported, and the opening hours that it keeps to.
  pub record HeldInHours (now : ℕ) (req : HoldRequest) (appt : Appointment) : Type 0 where
    pub start : ℕ
    pub close_at : ℕ
    pub snap : Snapshot
    pub admitted : Admitted env now req start snap
    pub day : Open env.zones snap start close_at
    pub status : appt.status ≡ held
    pub start_at : appt.start_at ≡ start
    pub proper : start < appt.end_at
    pub by_close : appt.end_at ≤ close_at

  hold_admitted-HeldInHours :
      (now : ℕ) (rid : String) (req : HoldRequest) (a : Result BookingError (ℕ × Snapshot))
      (w : World T B S) (appt : Appointment)
      → admit env now req ≡ a
      → (hold_admitted tech bay store env rid req a w).0 ≡ ok appt
      → HeldInHours now req appt
  unfolding hold_admitted
  hold_admitted-HeldInHours now rid req (err e) w appt p h = cc
  hold_admitted-HeldInHours now rid req (ok (start, snap)) w appt p h =
      let (close, le, day) =
        within_hours-Open env.zones snap start
          (hours-Admitted env now req _ _ start snap refl refl p).within in
      let (row, claimed, same) = to_appointments-ok _ appt h in
      let t = claim_row-InTime rid req start close snap w row le claimed in
      unfold to_appointment in
      record {
        start = start;
        close_at = close;
        snap = snap;
        admitted = hours-Admitted env now req _ _ start snap refl refl p;
        day = day;
        status = rw same t.0;
        start_at = rw same t.1;
        proper = rw same t.2;
        by_close = rw same t.3;
      }

  -- If a granted technician ends in time and the store inserts rows as they are given, a
  -- CreateHold that succeeds holds a future interval that starts at or after the opening of its
  -- day and ends by the close.
  pub create_hold-HeldInHours :
      (now : ℕ) (rid : String) (req : HoldRequest) (w : World T B S) (appt : Appointment)
      → (create_hold tech bay store env now rid req w).0 ≡ ok appt
      → HeldInHours now req appt
  unfolding create_hold
  create_hold-HeldInHours now rid req w appt h =
      hold_admitted-HeldInHours now rid req (admit env now req) w appt refl h
