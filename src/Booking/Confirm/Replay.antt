-- ===== src/Booking/Confirm/Replay.antt =====
-- Confirmations that are repeated: confirmHold and replay of backend/services/booking/service.go.
use unified_service_schedule.Common.{
  ℕ, String, ◌≡◌, ◌≢◌, ◌==◌, refl, subst, sym, Option, none, some, eq_iff, arith, if◌then◌else◌,
  Result, ok, err, inl, inr, ◌⊎◌, Bool-cases,
}
use unified_service_schedule.Booking.Types.{
  confirmed, idempotency_conflict, other, StoreError, AppointmentRow, ConfirmRequest,
}
use unified_service_schedule.Booking.Hours.{Snapshot}
use unified_service_schedule.Booking.Clients.{TechClient, BayClient, StoreClient, Env, World}
use unified_service_schedule.Booking.Service.{to_appointment, hold_part, admit}
use unified_service_schedule.Booking.Confirm.{
  Answer, replay_row, confirm_by_status, confirm_found, confirm_hold, request_fingerprint,
  same_print, replayed, replay, after_replay, confirm_admitted, confirm_without_hold,
}
use unified_service_schedule.Booking.Saga.{Action}
use unified_service_schedule.Booking.Confirm.Promote.{SameClaims}

module _ {T B S : Type 0} (tech : TechClient T) (bay : BayClient B) (store : StoreClient S)
    (env : Env) where
  -- The key stands on no CONFIRMED appointment but the row.
  abbrev KeyAgrees : AppointmentRow → Result StoreError (Option AppointmentRow) → Type 0
  KeyAgrees row found =
      (found ≡ ok none)
      ⊎ ((prior : AppointmentRow) × (found ≡ ok (some prior)) × (prior.id ≡ row.id))

  -- The key stands on another CONFIRMED appointment.
  abbrev KeyElsewhere : AppointmentRow → Result StoreError (Option AppointmentRow) → Type 0
  KeyElsewhere row found =
      (prior : AppointmentRow) × (found ≡ ok (some prior)) × (prior.id ≢ row.id)

  replay_row_cases :
      (row : AppointmentRow) (r : Result StoreError (Option AppointmentRow))
      → ((replay_row tech bay store env row r ≡ ok (to_appointment row, 200)) × KeyAgrees row r)
        ⊎ ((replay_row tech bay store env row r ≡ err idempotency_conflict) × KeyElsewhere row r)
        ⊎ ((replay_row tech bay store env row r ≡ err other) × ((e : StoreError) × (r ≡ err e)))
  unfolding replay_row
  replay_row_cases row (err e) = inr (inr (refl, (e, refl)))
  replay_row_cases row (ok none) = inl (refl, inl refl)
  replay_row_cases row (ok (some prior)) = elim (Bool-cases (prior.id == row.id)) [
    | inl q ↦ inl (ground (arith, q), inr (prior, refl, (eq_iff prior.id row.id).0 q))
    | inr q ↦ inr (
        inl (ground (arith, q), (prior, refl, (λ p. ground (arith, p, q, eq_iff prior.id row.id)))))
  ]

  -- What a replay of the row answers, by the key and by the appointment that its lookup found.
  unfoldable pub Replayed :
      String → AppointmentRow → Result StoreError (Option AppointmentRow) → Answer → Type 0
  Replayed key row found answer =
      ((answer ≡ ok (to_appointment row, 200)) × ((key ≡ "") ⊎ KeyAgrees row found))
      ⊎ ((answer ≡ err idempotency_conflict) × (key ≢ "") × KeyElsewhere row found)
      ⊎ ((answer ≡ err other) × (key ≢ "") × ((e : StoreError) × (found ≡ err e)))

  -- An action on the world answers a replay of the row and leaves the allocators.
  abbrev Replays : String → AppointmentRow → World T B S → Action T B S Answer → Type 0
  Replays key row v action =
      SameClaims tech bay store env v (action v).1
      × Replayed key row (store.get_confirmed_by_idempotency_key key v.store).0 (action v).0

  confirm_by_status-Replayed :
      (hold_id key : String) (row : AppointmentRow) (w : World T B S)
      → Replays key row w (confirm_by_status tech bay store env confirmed hold_id key row)
  unfolding confirm_by_status Replayed
  confirm_by_status-Replayed hold_id key row w = elim (Bool-cases (key == "")) [
    | inl k ↦ rw k (ground arith, inl (refl, inl ((eq_iff key "").0 k)))
    | inr k ↦
        let named : key ≢ "" = λ p. ground (arith, p, k, eq_iff key "") in
        rw k (
          ground arith,
          elim (replay_row_cases row (store.get_confirmed_by_idempotency_key key w.store).0) [
            | inl (e, agrees) ↦ inl (e, inr agrees)
            | inr (inl (e, elsewhere)) ↦ inr (inl (e, named, elsewhere))
            | inr (inr (e, failed)) ↦ inr (inr (e, named, failed))
          ],
        )
  ]

  confirm_found-Replayed :
      (hold_id key : String) (found : Result StoreError AppointmentRow) (row : AppointmentRow)
      (w : World T B S)
      → found ≡ ok row
      → row.status ≡ confirmed
      → Replays key row w (confirm_found tech bay store env hold_id key found)
  unfolding confirm_found
  confirm_found-Replayed hold_id key found row w g st =
      subst (λ f. Replays key row w (confirm_found tech bay store env hold_id key f)) (sym g)
        (subst (λ s. Replays key row w (confirm_by_status tech bay store env s hold_id key row))
          (sym st) (confirm_by_status-Replayed hold_id key row w))

  -- Confirming a hold that is CONFIRMED already calls neither allocator. It replays the row with
  -- 200 if there is no Idempotency-Key, or if no CONFIRMED appointment other than the row has the
  -- key; it is refused as a conflict exactly if another has it, and with an internal error if the
  -- key's lookup fails.
  pub confirm_hold_replays :
      (key : String) (req : ConfirmRequest) (row : AppointmentRow) (w : World T B S)
      → (store.get req.hold_id w.store).0 ≡ ok row
      → row.status ≡ confirmed
      → let (answer, w') = confirm_hold tech bay store env key req w in
        SameClaims tech bay store env w w'
        × Replayed key row
            (store.get_confirmed_by_idempotency_key key (store.get req.hold_id w.store).1).0
            answer
  unfolding confirm_hold
  confirm_hold_replays key req row w g st =
      let read : World T B S = record w { store = (store.get req.hold_id w.store).1 } in
      let (same, replayed) =
        confirm_found-Replayed req.hold_id key (store.get req.hold_id w.store).0 row read g st in
      (record { tech_same = same.tech_same; bay_same = same.bay_same }, replayed)

  -- An admitted confirmation without a hold whose key stands on a CONFIRMED appointment calls
  -- neither allocator: it replays that appointment with 200 if the fingerprints agree, and is
  -- refused as a conflict if they do not.
  pub confirm_without_hold_replays :
      (now : ℕ) (rid key : String) (req : ConfirmRequest) (start : ℕ) (snap : Snapshot)
      (row : AppointmentRow) (w : World T B S)
      → admit env now (hold_part req) ≡ ok (start, snap)
      → key ≢ ""
      → (store.get_confirmed_by_idempotency_key key w.store).0 ≡ ok (some row)
      → let (answer, w') = confirm_without_hold tech bay store env now rid key req w in
        SameClaims tech bay store env w w'
        × (answer ≡ (
            if same_print (request_fingerprint env req req.hold_id) row.request_fingerprint
            then ok (to_appointment row, 200)
            else err idempotency_conflict))
  unfolding confirm_without_hold confirm_admitted replay replayed after_replay
  confirm_without_hold_replays now rid key req start snap row w a kn g =
      ground (arith, a, g, eq_iff key "")
