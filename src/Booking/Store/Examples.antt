-- ===== src/Booking/Store/Examples.antt =====
-- The store over a short history, and one sweep.
use unified_service_schedule.Common.{
  ℕ, ◌+◌, ◌≡◌, false, none, some, List, [], ◌∷◌, arith, here, there, In, refl,
}
use unified_service_schedule.Booking.Types.{held, confirmed, AppointmentRow}
use unified_service_schedule.Booking.Store.{
  has_id, insert_held, promote, sweep_batch, expired, promote_row,
}
use unified_service_schedule.Booking.Store.Valid.{IsValid, clash}
use unified_service_schedule.Booking.Store.Steps.{
  Call, inserts, promotes_id, sweeps, run, one_confirmed_per_key, Stays, appointment_kept,
}
use unified_service_schedule.Booking.Store.Sweep.{sweep_spares}

-- What the service inserts.
abbrev new : ℕ → AppointmentRow
new start = record {
  id = "";
  dealership_id = "north";
  customer_id = "c";
  vehicle_id = "v";
  service_type_id = "oil";
  technician_id = some "ann";
  service_bay_id = some "lift";
  tech_occupation_id = some "t1";
  bay_occupation_id = some "b1";
  start_at = start;
  end_at = 30 + start;
  status = held;
  hold_expires_at = none;
  idempotency_key = none;
  request_fingerprint = none;
}

-- The second promotion is refused: its key is taken.
abbrev calls : List Call
calls =
    inserts false "a1" 5 6 (new 100)
    ∷ inserts false "a2" 7 8 (new 200)
    ∷ promotes_id false "a1" "k" "p"
    ∷ promotes_id false "a2" "k" "p"
    ∷ []

abbrev firm : AppointmentRow
firm = record (new 100) {
  id = "a1";
  status = confirmed;
  idempotency_key = some "k";
  request_fingerprint = some "p";
}

abbrev waiting : AppointmentRow
waiting = record (new 200) { id = "a2"; hold_expires_at = some 120000007 }

run-calls : run calls [] ≡ waiting ∷ firm ∷ []
unfolding run insert_held promote promote_row
run-calls = refl

one_confirmed_per_key_example : firm ≡ firm
one_confirmed_per_key_example =
    one_confirmed_per_key calls firm firm "k" (rw run-calls (there (here refl)))
      (rw run-calls (there (here refl))) refl refl refl refl

appointment_kept_example :
    Stays waiting (run (sweeps false 50 120000007 ∷ []) (waiting ∷ firm ∷ []))
appointment_kept_example =
    appointment_kept (sweeps false 50 120000007 ∷ []) (waiting ∷ firm ∷ []) waiting (here refl)

rows-IsValid : IsValid (waiting ∷ firm ∷ [])
unfolding clash has_id
rows-IsValid = (refl, refl, omega arith, (refl, refl, omega arith, tt))

sweep_spares_example : In firm (sweep_batch false 50 120000007 (waiting ∷ firm ∷ [])).1
sweep_spares_example =
    sweep_spares 50 120000007 (waiting ∷ firm ∷ []) firm rows-IsValid (there (here refl))
      (unfold expired in refl)
