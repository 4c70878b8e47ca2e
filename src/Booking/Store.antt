-- ===== src/Booking/Store.antt =====
-- The SQL of backend/services/booking/store.go on the table `appointment`, whose schema is
-- backend/services/booking/migrations/001_init.sql. A driver's own error is the flag `fails`: the
-- statement then changes nothing.
pub mod Valid
pub mod Steps
pub mod Client
pub mod Sweep
mod Examples
use unified_service_schedule.Common.{
  ℕ, zero, suc, ◌+◌, String, Bool, true, false, not, ◌&&◌, ◌||◌, Option, none, some, List, [], ◌∷◌,
  map, ◌==◌, ltb, leb, any, select, take, least, length, is_none, if◌then◌else◌, Result, ok, err,
}
use unified_service_schedule.Occupancy.{hold_ttl}
use unified_service_schedule.Booking.Types.{
  Status, held, confirmed, cancelled, StoreError, no_rows, unique_violation, failure,
  AppointmentRow,
}

abbrev pub Rows : Type 0
Rows = List AppointmentRow

unfoldable pub has_id : String → AppointmentRow → Bool
has_id id r = r.id == id

abbrev pub is_held : Status → Bool
is_held held = true
is_held _ = false

abbrev pub is_confirmed : Status → Bool
is_confirmed confirmed = true
is_confirmed _ = false

abbrev pub is_cancelled : Status → Bool
is_cancelled cancelled = true
is_cancelled _ = false

-- The first row that passes the test.
unfoldable pub find : (AppointmentRow → Bool) → Rows → Option AppointmentRow
find p [] = none
find p (r ∷ t) = if p r then some r else find p t

abbrev found : Option AppointmentRow → Result StoreError AppointmentRow
found none = err no_rows
found (some r) = ok r

unfoldable pub new_id : String → AppointmentRow → String
new_id uuid r = if r.id == "" then uuid else r.id

-- `now` is SQL's now().
unfoldable pub stored_row : String → ℕ → AppointmentRow → AppointmentRow
stored_row uuid now r = record r {
  id = new_id uuid r;
  status = held;
  hold_expires_at = some (now + hold_ttl);
  idempotency_key = none;
  request_fingerprint = none;
}

-- The row that is returned carries the service's own clock.
unfoldable pub returned_row : String → ℕ → AppointmentRow → AppointmentRow
returned_row uuid clock r = record r {
  id = new_id uuid r;
  status = held;
  hold_expires_at = some (clock + hold_ttl);
}

unfoldable pub insert_held :
    Bool → String → ℕ → ℕ → AppointmentRow → Rows → Result StoreError AppointmentRow × Rows
unfolding has_id new_id stored_row returned_row
insert_held fails uuid now clock r t =
    if fails
    then (err failure, t)
    else if ltb r.start_at r.end_at
    then if any (has_id (new_id uuid r)) t
      then (err unique_violation, t)
      else (ok (returned_row uuid clock r), stored_row uuid now r ∷ t)
    else (err failure, t)

unfoldable pub get : Bool → String → Rows → Result StoreError AppointmentRow
unfolding has_id find
get fails id t = if fails then err failure else found (find (has_id id) t)

-- idempotency_key = $1
abbrev pub key_is : String → Option String → Bool
key_is key none = false
key_is key (some k) = k == key

unfoldable pub has_key : String → AppointmentRow → Bool
has_key key r = key_is key r.idempotency_key && is_confirmed r.status

-- The row, the flag `ok`, or an error.
unfoldable pub get_confirmed_by_idempotency_key :
    Bool → String → Rows → Result StoreError (Option AppointmentRow)
unfolding has_key find
get_confirmed_by_idempotency_key fails key t =
    if fails then err failure else ok (find (has_key key) t)

-- NULLIF(x, '')
unfoldable pub nullif_empty : String → Option String
nullif_empty x = if x == "" then none else some x

unfoldable pub promoted : String → String → AppointmentRow → AppointmentRow
unfolding nullif_empty
promoted key fp r = record r {
  status = confirmed;
  hold_expires_at = none;
  idempotency_key = nullif_empty key;
  request_fingerprint = nullif_empty fp;
}

-- WHERE id = $1 AND status = 'HELD'
unfoldable pub promotes : String → AppointmentRow → Bool
unfolding has_id
promotes id r = has_id id r && is_held r.status

unfoldable pub promote_row : String → String → String → AppointmentRow → AppointmentRow
unfolding promotes promoted
promote_row id key fp r = if promotes id r then promoted key fp r else r

-- The partial unique index on idempotency_key refuses a second CONFIRMED row with the key.
unfoldable pub key_taken : String → Rows → Bool
unfolding has_key
key_taken key t = not (key == "") && any (has_key key) t

unfoldable pub promote :
    Bool → String → String → String → Rows → Result StoreError AppointmentRow × Rows
unfolding find promotes key_taken promote_row
promote fails id key fp t = if fails then (err failure, t) else elim (find (promotes id) t) [
  | none ↦ (err no_rows, t)
  | some r ↦
      if key_taken key t
      then (err unique_violation, t)
      else (ok (promoted key fp r), map (promote_row id key fp) t)
]

unfoldable pub cancelled_row : AppointmentRow → AppointmentRow
cancelled_row r = record r { status = cancelled; hold_expires_at = none }

-- WHERE id = $1 AND status IN ('HELD', 'CONFIRMED')
unfoldable pub cancels : String → AppointmentRow → Bool
unfolding has_id
cancels id r = has_id id r && not (is_cancelled r.status)

unfoldable pub cancel_row : String → AppointmentRow → AppointmentRow
unfolding cancels cancelled_row
cancel_row id r = if cancels id r then cancelled_row r else r

unfoldable pub cancel : Bool → String → Rows → Result StoreError Bool × Rows
unfolding cancel_row
cancel fails id t =
    if fails then (err failure, t) else (ok (any (cancels id) t), map (cancel_row id) t)

-- status = 'HELD' AND hold_expires_at <= now()
abbrev pub hold_expired : ℕ → Status → Option ℕ → Bool
hold_expired now held (some x) = leb x now
hold_expired now _ _ = false

unfoldable pub expired : ℕ → AppointmentRow → Bool
expired now r = hold_expired now r.status r.hold_expires_at

abbrev pub expiry : AppointmentRow → ℕ
expiry r = elim r.hold_expires_at [ none ↦ 0 | some x ↦ x ]

-- The `limit` rows that expired first: the subquery of SweepBatch, with ORDER BY hold_expires_at.
unfoldable pub insert_by_expiry : AppointmentRow → Rows → Rows
insert_by_expiry r [] = r ∷ []
insert_by_expiry r (s ∷ t) =
    if leb (expiry r) (expiry s) then r ∷ s ∷ t else s ∷ insert_by_expiry r t

unfoldable pub sort_by_expiry : Rows → Rows
unfolding insert_by_expiry
sort_by_expiry [] = []
sort_by_expiry (r ∷ t) = insert_by_expiry r (sort_by_expiry t)

unfoldable pub batch : ℕ → ℕ → Rows → Rows
unfolding expired sort_by_expiry
batch limit now t = take limit (sort_by_expiry (select (expired now) t))

unfoldable pub sweep_row : Rows → AppointmentRow → AppointmentRow
unfolding cancelled_row
sweep_row chosen r = if any (λ c. c.id == r.id) chosen then cancelled_row r else r

unfoldable pub sweep_batch : Bool → ℕ → ℕ → Rows → Result StoreError Rows × Rows
unfolding batch sweep_row
sweep_batch fails limit now t =
    let chosen = batch limit now t in
    if fails then (err failure, t) else (ok (map cancelled_row chosen), map (sweep_row chosen) t)

unfoldable pub needs_release : AppointmentRow → Bool
needs_release r =
    is_cancelled r.status
    && (not (is_none r.tech_occupation_id) || not (is_none r.bay_occupation_id))

unfoldable pub list_cancelled_needing_release : Bool → ℕ → Rows → Result StoreError Rows
unfolding needs_release
list_cancelled_needing_release fails limit t =
    if fails then err failure else ok (take limit (select needs_release t))

-- WHERE id = $1 AND status = 'CANCELLED'
unfoldable pub clear_row : String → AppointmentRow → AppointmentRow
unfolding has_id
clear_row id r =
    if has_id id r && is_cancelled r.status
    then record r { tech_occupation_id = none; bay_occupation_id = none }
    else r

unfoldable pub clear_occupation_ids : Bool → String → Rows → Result StoreError (Unit {0}) × Rows
unfolding clear_row
clear_occupation_ids fails id t = if fails then (err failure, t) else (ok tt, map (clear_row id) t)
