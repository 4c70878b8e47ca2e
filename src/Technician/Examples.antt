-- ===== src/Technician/Examples.antt =====
-- Two technicians, one of them on a morning shift, and the calls of a morning.
use unified_service_schedule.Common.{
  inr, ℕ, ◌*◌, ◌≡◌, String, false, none, some, List, [], ◌∷◌, arith, here, there, ok, refl, least,
  differ,
}
use unified_service_schedule.Occupancy.{
  OccRow, held, confirmed, minute, insert, delete_expired, update_confirmed, confirm_row, claims,
  is_busy, hold_expired,
}
use unified_service_schedule.Occupancy.Claim.{Turn, claim_loop, claim_once, reserve_code}
use unified_service_schedule.Occupancy.Claim.Sound.{Honest}
use unified_service_schedule.Occupancy.Claim.Live.{quiet_turn, quiet_turn-Quiet}
use unified_service_schedule.Occupancy.Handlers.{confirm}
use unified_service_schedule.Occupancy.History.{Call, HonestCalls, run}
use unified_service_schedule.Occupancy.History as Calls
use unified_service_schedule.Occupancy.Steps.{Apart, start}
use unified_service_schedule.Technician.{reserve, end_of, absent, shift_covers}
use unified_service_schedule.Technician.Server.{
  ReserveRequest, ReserveResponse, params, handle_reserve,
}
use unified_service_schedule.Technician.Reserve.{
  Reserved, handle_reserve_sound, handle_reserve_complete,
}
use unified_service_schedule.Technician.History.{
  history, reserve_table, technician_not_double_booked,
}
use unified_service_schedule.Technician.Fixture.{
  clocks, ann, oil_change, monday, roster, roster-DurationsPositive,
}

-- A job of service "oil" at the minute of the day.
abbrev request : ℕ → ReserveRequest
request m = record {
  dealership_id = "north";
  service_type_id = "oil";
  start = some (m * minute);
  latest_end = some (1080 * minute);
  request_id = "r";
}

abbrev quiet : String → ℕ → Turn
quiet id k = quiet_turn 5 id

quiet-Honest : (id : String) (k : ℕ) → Honest (quiet id k)
quiet-Honest id k = record { before = λ t. start; between = λ t. start; after = λ t. start }

abbrev morning : List (Call ReserveRequest)
morning =
    Calls.reserves 5 (quiet "first") (request 540)
    ∷ Calls.confirms false 6 "first"
    ∷ Calls.reserves 7 (quiet "second") (request 560)
    ∷ Calls.reserves 8 (quiet "third") (request 570)
    ∷ []

abbrev first : OccRow
first = record {
  id = "first";
  resource_id = "ann";
  start_at = 540 * minute;
  end_at = 570 * minute;
  status = confirmed;
  hold_expires_at = none;
}

abbrev third : OccRow
third = record {
  id = "third";
  resource_id = "ann";
  start_at = 570 * minute;
  end_at = 600 * minute;
  status = held;
  hold_expires_at = some 120000005;
}

-- The second request finds Ann busy.
history-morning : history clocks roster morning ≡ third ∷ first ∷ []
unfolding history run confirm update_confirmed confirm_row reserve_table handle_reserve reserve
    claim_loop claim_once least absent claims insert reserve_code delete_expired hold_expired
history-morning = refl

technician_not_double_booked_example : Apart third first
technician_not_double_booked_example =
    technician_not_double_booked clocks roster morning third first
      (quiet-Honest "first", (tt, (quiet-Honest "second", (quiet-Honest "third", tt))))
      (rw history-morning (here refl)) (rw history-morning (there (here refl)))
      (differ "third" "first" refl) refl refl refl

abbrev second_answer : ReserveResponse
second_answer = record { occupation_id = "third"; technician_id = "ann"; end = 600 * minute }

handle_reserve_sound_example :
    Reserved clocks roster 8
      (quiet "third")
      (request 570)
      (first ∷ [])
      second_answer
      (handle_reserve clocks roster 8 (quiet "third") (request 570) (first ∷ [])).1
handle_reserve_sound_example =
    handle_reserve_sound clocks roster 8 (quiet "third") (request 570) (first ∷ []) second_answer
      (unfold handle_reserve reserve claim_loop claim_once least absent claims insert in refl)

handle_reserve_complete_example :
    (resp : ReserveResponse) × ((handle_reserve clocks roster 8
        (quiet "third")
        (request 570)
        (first ∷ [])).0
      ≡ ok resp)
unfolding params end_of shift_covers absent claims delete_expired hold_expired is_busy
handle_reserve_complete_example =
    handle_reserve_complete clocks roster 8 (quiet "third") (request 570) (first ∷ [])
      (570 * minute) (1080 * minute) ann oil_change roster-DurationsPositive
      (λ k. quiet_turn-Quiet 5 "third") (λ k. refl) (differ "north" "" refl) (differ "oil" "" refl)
      refl refl (omega arith)
      (record {
        technician = there (here refl);
        skill = here refl;
        skilled = refl;
        service = refl;
        dealership = refl;
        active = refl;
        closes = omega arith;
        shift = (
          monday,
          here refl,
          record { own = refl; day = refl; begun = omega arith; ends = omega arith },
        );
        present = λ a m. elim m [
          | here p ↦ rw (← p) (inr (inr (inr (inr (omega arith)))))
          | there n ↦ elim n [ ]
        ];
        free = refl;
      })

abbrev uuid : ℕ → String
uuid n = "t1"
