-- ===== src/Booking/Examples.antt =====
-- The booking service at work: holds, confirmations that succeed, fail and are repeated, and the way
-- back.
use unified_service_schedule.Common.{
  ℕ, ◌*◌, ◌≡◌, ◌≢◌, ◌⊎◌, String, false, none, some, List, ok, err, refl, differ,
}
use unified_service_schedule.Occupancy.{minute, confirm_row, update_confirmed}
use unified_service_schedule.Occupancy.Handlers as Handlers
use unified_service_schedule.Technician.Client as TechDb
use unified_service_schedule.Bay as Bays
use unified_service_schedule.Bay.Client as BayDb
use unified_service_schedule.Booking.Types.{
  confirmed, cancelled, AppointmentRow, ConfirmRequest, unavailable,
}
use unified_service_schedule.Booking.Clients.{TechClient, StoreClient}
use unified_service_schedule.Booking.Store.Client as StoreDb
use unified_service_schedule.Booking.Service.{create_hold, to_appointment}
use unified_service_schedule.Booking.Service.Holds.{FailsClean, create_hold_compensates}
use unified_service_schedule.Booking.Service.{admit}
use unified_service_schedule.Booking.Hours.{within_hours}
use unified_service_schedule.Booking.Saga.Compensation.{TechAccounts}
use unified_service_schedule.Booking.Laws.{InsertsAsGiven}
use unified_service_schedule.Booking.Store.{insert_held}
use unified_service_schedule.Booking.Types.{failure}
use unified_service_schedule.Booking.Saga.{confirm_both}
use unified_service_schedule.Rpc.{internal_error}
use unified_service_schedule.Booking.Store as Store
use unified_service_schedule.Booking.Confirm.{
  confirm_hold, confirm_without_hold, request_fingerprint, promote_and_get, promote_confirmed,
}
use unified_service_schedule.Booking.Confirm.Promote.{
  SameClaims, HoldConfirmed, confirm_hold-HoldConfirmed,
}
use unified_service_schedule.Booking.Confirm.Failure.{
  FreedIfFailed, promote_failure_frees, stale_confirm_unclaims,
}
use unified_service_schedule.Booking.Confirm.Compensation.{
  TechConfirming, CleanUnlessLost, confirm_without_hold_compensates,
}
use unified_service_schedule.Booking.Confirm.Replay.{
  Replayed, confirm_hold_replays, confirm_without_hold_replays,
}
use unified_service_schedule.Booking.Http.{post_hold}
use unified_service_schedule.Booking.Http.Replies.{CleanOrCreated, post_hold-CleanOrCreated}
use unified_service_schedule.Booking.Recovery.{release_row, cancel}
use unified_service_schedule.Booking.Recovery.Release.{release_row_gated, cancel_frees}
use unified_service_schedule.Booking.Fingerprint.{fingerprint, parts}
use unified_service_schedule.Booking.Fixture.{
  bay-Confirming, tech, bay, store, north, env, idle, hold_request, row, with_hold,
  store-InsertsAsGiven, tech_accounts, bay_accounts,
}

-- A store whose INSERT fails.
abbrev broken : StoreClient StoreDb.Db
broken = record store { insert_held = λ r s. (err failure, s) }

broken-InsertsAsGiven : InsertsAsGiven broken
broken-InsertsAsGiven = record { as_given = λ r s row h. cc }

create_hold_compensates_example :
    FailsClean tech bay broken env tech_accounts bay_accounts broken-InsertsAsGiven idle
      (create_hold tech bay broken env 5 "r" hold_request idle)
create_hold_compensates_example =
    create_hold_compensates tech bay broken env tech_accounts bay_accounts broken-InsertsAsGiven 5
      "r" hold_request idle

abbrev confirm_request : ConfirmRequest
confirm_request = record {
  hold_id = "a1";
  dealership_id = "north";
  customer_id = "c";
  vehicle_id = "v";
  service_type_id = "oil";
  start = "09:30";
}

abbrev confirmed_row : AppointmentRow
confirmed_row = record row {
  status = confirmed;
  hold_expires_at = none;
  idempotency_key = some "k";
  request_fingerprint = some "digest";
}

-- Confirmed before the hold expires.
confirm_hold-HoldConfirmed_example :
    HoldConfirmed tech bay store env "a1"
      (with_hold 6 row)
      (confirm_hold tech bay store env "k" confirm_request (with_hold 6 row)).1
confirm_hold-HoldConfirmed_example =
    confirm_hold-HoldConfirmed tech bay store env "k" confirm_request (with_hold 6 row)
      (to_appointment confirmed_row)
      (unfold confirm_hold promote_and_get confirm_both TechDb.client BayDb.client StoreDb.client
          Store.get Store.promote Handlers.confirm Bays.confirm update_confirmed confirm_row in
        refl)

t1-named : ◌≢◌ {A = String} "t1" ""
t1-named = differ "t1" "" refl

b1-named : ◌≢◌ {A = String} "b1" ""
b1-named = differ "b1" "" refl

-- Too late: the allocators' holds have expired.
promote_failure_frees_example :
    FreedIfFailed tech bay store env tech_accounts bay_accounts "t1" "b1" t1-named b1-named
      (promote_confirmed tech bay store env row "k" "digest" (with_hold 120000005 row))
promote_failure_frees_example =
    promote_failure_frees tech bay store env tech_accounts bay_accounts "t1" "b1" t1-named b1-named
      row "k" "digest" (with_hold 120000005 row) refl refl

-- A technician server whose Confirm is cut off by its database.
abbrev flaky : TechClient TechDb.Db
flaky = record tech { confirm = λ id db. (err internal_error, db) }

flaky-Accounts : TechAccounts flaky
flaky-Accounts = tech_accounts

stale_confirm_unclaims_example :
    let (r, w') =
      promote_confirmed flaky bay store env row "k" "digest" (with_hold 6 confirmed_row) in
    (r ≡ err unavailable)
    × ((store.get "a1" w'.store).0 ≡ ok confirmed_row)
    × (flaky-Accounts.live w'.tech "t1" ≡ false)
    × (bay_accounts.live w'.bay "b1" ≡ false)
stale_confirm_unclaims_example =
    stale_confirm_unclaims flaky bay store env flaky-Accounts bay_accounts "t1" "b1" t1-named
      b1-named row confirmed_row "k" "digest" internal_error (with_hold 6 confirmed_row) refl refl
      (unfold StoreDb.client Store.get in refl) refl refl

confirm_hold_replays_example :
    let (answer, w') =
      confirm_hold tech bay store env "k" confirm_request (with_hold 9 confirmed_row) in
    SameClaims tech bay store env (with_hold 9 confirmed_row) w'
    × Replayed tech bay store env "k" confirmed_row
        (store.get_confirmed_by_idempotency_key "k"
          (store.get "a1" (with_hold 9 confirmed_row).store).1).0
        answer
confirm_hold_replays_example =
    confirm_hold_replays tech bay store env "k" confirm_request confirmed_row
      (with_hold 9 confirmed_row) (unfold StoreDb.client Store.get in refl) refl

abbrev cancelled_row : AppointmentRow
cancelled_row = record row { status = cancelled; hold_expires_at = none }

-- The confirmation that made the row, sent again.
abbrev direct_request : ConfirmRequest
direct_request = record confirm_request { hold_id = "" }

confirm_without_hold_replays_example :
    let (answer, w') =
      confirm_without_hold tech bay store env 9 "r" "k" direct_request
        (with_hold 9 confirmed_row) in
    SameClaims tech bay store env (with_hold 9 confirmed_row) w'
    × (answer ≡ ok (to_appointment confirmed_row, 200))
unfolding request_fingerprint fingerprint
confirm_without_hold_replays_example =
    confirm_without_hold_replays tech bay store env 9 "r" "k" direct_request (570 * minute) north
      confirmed_row (with_hold 9 confirmed_row) (unfold admit within_hours in refl)
      (differ "k" "" refl) (unfold StoreDb.client Store.get_confirmed_by_idempotency_key in refl)

release_row_gated_example :
    let w = with_hold 9 cancelled_row in
    let w' = (release_row tech bay store cancelled_row w).1 in
    (w'.store ≡ w.store)
    ⊎ (w'.store ≡ (store.clear_occupation_ids "a1" w.store).1)
      × (tech_accounts.live w'.tech "t1" ≡ false)
      × (bay_accounts.live w'.bay "b1" ≡ false)
release_row_gated_example =
    release_row_gated tech bay store tech_accounts.accounts bay_accounts.accounts cancelled_row "t1"
      "b1" (with_hold 9 cancelled_row) refl refl t1-named b1-named

cancel_frees_example :
    let w = with_hold 9 row in
    let w' = (cancel tech bay store "a1" w).1 in
    (w'.store ≡ (store.cancel "a1" (store.get "a1" w.store).1).1)
    × (tech_accounts.live w'.tech "t1" ≡ false)
    × (bay_accounts.live w'.bay "b1" ≡ false)
cancel_frees_example =
    cancel_frees tech bay store tech_accounts bay_accounts "a1" "t1" "b1" row (with_hold 9 row)
      (unfold StoreDb.client Store.get in refl) refl refl t1-named b1-named
      (unfold cancel StoreDb.client Store.get Store.cancel in refl)

-- The parts of a confirmation's fingerprint.
abbrev sent : List (List ℕ)
sent = parts "" "north" "c" "v" "oil" "09:30"

-- The technician server refuses to confirm.
flaky-Confirming : TechConfirming flaky
flaky-Confirming = record { reliable = tech_accounts; confirms = λ a x y h. h }

confirm_without_hold_compensates_example :
    CleanUnlessLost flaky bay store env flaky-Confirming bay-Confirming store-InsertsAsGiven idle
      (confirm_without_hold flaky bay store env 5 "r" "k" direct_request idle)
confirm_without_hold_compensates_example =
    confirm_without_hold_compensates flaky bay store env flaky-Confirming bay-Confirming
      store-InsertsAsGiven 5 "r" "k" direct_request idle

post_hold-CleanOrCreated_example :
    CleanOrCreated tech bay broken env tech_accounts bay_accounts broken-InsertsAsGiven 5 ""
      (some hold_request)
      idle
      (post_hold tech bay broken env 5 "u" "r" "" (some hold_request) idle)
post_hold-CleanOrCreated_example =
    post_hold-CleanOrCreated tech bay broken env tech_accounts bay_accounts broken-InsertsAsGiven 5
      "u" "r" "" (some hold_request) idle
