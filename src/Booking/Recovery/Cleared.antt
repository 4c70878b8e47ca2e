-- ===== src/Booking/Recovery/Cleared.antt =====
-- The rows of an appointment while the sweeper runs: store.go's SweepBatch and ClearOccupationIDs.
use unified_service_schedule.Common.{
  String, ◌≡◌, sym, true, none, map, In, In-any, map-In, eq_iff, arith, ◌==◌, any,
}
use unified_service_schedule.Booking.Types.{cancelled, AppointmentRow}
use unified_service_schedule.Booking.Store.{Rows, sweep_row, clear_row}

-- Every row with the id is CANCELLED.
abbrev pub AreCancelled : String → Rows → Type 0
AreCancelled id t = (q : AppointmentRow) → In q t → q.id ≡ id → q.status ≡ cancelled

-- … and points at no occupation.
abbrev pub AreCleared : String → Rows → Type 0
AreCleared id t =
    (q : AppointmentRow)
    → In q t
    → q.id ≡ id
    → (q.status ≡ cancelled) × (q.tech_occupation_id ≡ none) × (q.bay_occupation_id ≡ none)

pub sweep-AreCancelled :
    (r : AppointmentRow) (chosen t : Rows)
    → In r chosen
    → AreCancelled r.id (map (sweep_row chosen) t)
unfolding sweep_row
sweep-AreCancelled r chosen t m q n e =
    let (x, i, s) = map-In (sweep_row chosen) t n in
    let same : x.id ≡ r.id = ground (arith, s, e) in
    let hit : any (λ (c : AppointmentRow). c.id == x.id) chosen ≡ true =
      In-any (λ c. c.id == x.id) chosen m ((eq_iff r.id x.id).1 (sym same)) in
    ground (arith, s, hit)

pub clear-AreCleared :
    (id : String) (t : Rows) → AreCancelled id t → AreCleared id (map (clear_row id) t)
unfolding clear_row
clear-AreCleared id t h q n e =
    let (x, i, s) = map-In (clear_row id) t n in
    let same : x.id ≡ id = ground (arith, s, e) in
    let gone = h x i same in ground (arith, s, gone, eq_iff x.id id, same)

pub clear-kept :
    (id other : String) (t : Rows) → AreCleared id t → AreCleared id (map (clear_row other) t)
unfolding clear_row
clear-kept id other t h q n e =
    let (x, i, s) = map-In (clear_row other) t n in
    let same : x.id ≡ id = ground (arith, s, e) in
    let (a, b, c) = h x i same in ground (arith, s, a, b, c)

pub clear-kept_cancelled :
    (id other : String) (t : Rows) → AreCancelled id t → AreCancelled id (map (clear_row other) t)
unfolding clear_row
clear-kept_cancelled id other t h q n e =
    let (x, i, s) = map-In (clear_row other) t n in
    let same : x.id ≡ id = ground (arith, s, e) in ground (arith, s, h x i same)
