-- ===== src/Bay/Examples.antt =====
-- Two bays, and the calls of a morning.
use unified_service_schedule.Common.{
  ℕ, ◌+◌, ◌*◌, ◌≡◌, String, false, none, some, List, [], ◌∷◌, arith, here, there, ok, refl, least,
  differ,
}
use unified_service_schedule.Occupancy.{
  OccRow, held, confirmed, minute, insert, delete_expired, update_confirmed, confirm_row, claims,
  is_busy, hold_expired,
}
use unified_service_schedule.Occupancy.Claim.{Turn, claim_loop, claim_once, reserve_code}
use unified_service_schedule.Occupancy.Claim.Sound.{Honest}
use unified_service_schedule.Occupancy.Claim.Live.{quiet_turn, quiet_turn-Quiet}
use unified_service_schedule.Occupancy.History.{Call, run}
use unified_service_schedule.Occupancy.History as Calls
use unified_service_schedule.Occupancy.Steps.{Apart, start}
use unified_service_schedule.Bay.{reserve}
use unified_service_schedule.Occupancy.Handlers.{confirm}
use unified_service_schedule.Bay.Server.{ReserveRequest, ReserveResponse, params, handle_reserve}
use unified_service_schedule.Bay.Reserve.{Reserved, bay_reserve_sound, bay_reserve_complete}
use unified_service_schedule.Bay.History.{history, reserve_table, bay_not_double_booked}
use unified_service_schedule.Bay.Fixture.{hash, lift, bays}

-- half an hour from the minute of the day
abbrev request : ℕ → ReserveRequest
request m = record {
  dealership_id = "north";
  start = some (m * minute);
  end = some ((m + 30) * minute);
  request_id = "r";
}

abbrev quiet : String → ℕ → Turn
quiet id k = quiet_turn 5 id

quiet-Honest : (id : String) (k : ℕ) → Honest (quiet id k)
quiet-Honest id k = record { before = λ t. start; between = λ t. start; after = λ t. start }

abbrev morning : List (Call ReserveRequest)
morning =
    Calls.reserves 5 (quiet "first") (request 540)
    ∷ Calls.confirms false 6 "first"
    ∷ Calls.reserves 7 (quiet "second") (request 560)
    ∷ Calls.reserves 8 (quiet "third") (request 570)
    ∷ []

abbrev first : OccRow
first = record {
  id = "first";
  resource_id = "lift";
  start_at = 540 * minute;
  end_at = 570 * minute;
  status = confirmed;
  hold_expires_at = none;
}

abbrev third : OccRow
third = record {
  id = "third";
  resource_id = "lift";
  start_at = 570 * minute;
  end_at = 600 * minute;
  status = held;
  hold_expires_at = some 120000005;
}

-- The second request finds no free bay.
history-morning : history hash bays morning ≡ third ∷ first ∷ []
unfolding history run confirm update_confirmed confirm_row reserve_table handle_reserve reserve
    claim_loop claim_once least claims insert reserve_code delete_expired hold_expired
history-morning = refl

bay_not_double_booked_example : Apart third first
bay_not_double_booked_example =
    bay_not_double_booked hash bays morning third first
      (quiet-Honest "first", (tt, (quiet-Honest "second", (quiet-Honest "third", tt))))
      (rw history-morning (here refl)) (rw history-morning (there (here refl)))
      (differ "third" "first" refl) refl refl refl

abbrev answer : ReserveResponse
answer = record { occupation_id = "third"; service_bay_id = "lift" }

bay_reserve_sound_example :
    Reserved hash bays 8
      (quiet "third")
      (request 570)
      (first ∷ [])
      answer
      (handle_reserve hash bays 8 (quiet "third") (request 570) (first ∷ [])).1
bay_reserve_sound_example =
    bay_reserve_sound hash bays 8 (quiet "third") (request 570) (first ∷ []) answer
      (unfold handle_reserve reserve claim_loop claim_once least claims insert in refl)

bay_reserve_complete_example :
    (resp : ReserveResponse) × ((handle_reserve hash bays 8
        (quiet "third")
        (request 570)
        (first ∷ [])).0
      ≡ ok resp)
unfolding params claims delete_expired hold_expired is_busy
bay_reserve_complete_example =
    bay_reserve_complete hash bays 8 (quiet "third") (request 570) (first ∷ []) (570 * minute)
      (600 * minute) lift (λ k. quiet_turn-Quiet 5 "third") (λ k. refl) (differ "north" "" refl)
      refl refl (omega arith) (omega arith)
      (record { bay = there (here refl); dealership = refl; active = refl; free = refl })

abbrev uuid : ℕ → String
uuid n = "b1"
