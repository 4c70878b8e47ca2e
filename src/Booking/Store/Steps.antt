-- ===== src/Booking/Store/Steps.antt =====
-- The histories of the appointment table: any interleaving of the store's statements.
use unified_service_schedule.Common.{
  ℕ, String, ◌≡◌, refl, sym, ◌∙◌, Bool, false, some, List, [], ◌∷◌, map, arith, eq_refl, any, In,
  here, there, inl, inr, any-In, In-map, Option-cases,
}
use unified_service_schedule.Booking.Types.{confirmed, AppointmentRow}
use unified_service_schedule.Booking.Store.{
  Rows, is_confirmed, promote_row, cancel_row, sweep_row, clear_row, batch, insert_held, stored_row,
  promote, cancel, sweep_batch, clear_occupation_ids, find, promotes,
}
use unified_service_schedule.Booking.Store.Valid.{
  IsValid, clash, Keeps, promote_row-Keeps, cancel_row-Keeps, sweep_row-Keeps, clear_row-Keeps,
  cancel-IsValid, sweep-IsValid, clear-IsValid, promote-IsValid,
}

-- One statement of the store, with what the environment gives it.
pub data Call : Type 0 where
  inserts : Bool → String → ℕ → ℕ → AppointmentRow → Call
  promotes_id : Bool → String → String → String → Call
  cancels_id : Bool → String → Call
  sweeps : Bool → ℕ → ℕ → Call
  clears : Bool → String → Call

unfoldable pub apply : Call → Rows → Rows
apply (inserts fails uuid now clock r) t = (insert_held fails uuid now clock r t).1
apply (promotes_id fails id key fp) t = (promote fails id key fp t).1
apply (cancels_id fails id) t = (cancel fails id t).1
apply (sweeps fails limit now) t = (sweep_batch fails limit now t).1
apply (clears fails id) t = (clear_occupation_ids fails id t).1

unfoldable pub run : List Call → Rows → Rows
unfolding apply
run [] t = t
run (c ∷ cs) t = run cs (apply c t)

clash-held : (r s : AppointmentRow) → is_confirmed r.status ≡ false → clash r s ≡ false
unfolding clash
clash-held r s h = ground arith

any-clash-held :
    (r : AppointmentRow) (t : Rows) → is_confirmed r.status ≡ false → any (clash r) t ≡ false
any-clash-held r [] h = refl
any-clash-held r (s ∷ t) h = ground (arith, clash-held r s h, any-clash-held r t h)

insert_held-IsValid :
    (fails : Bool) (uuid : String) (now clock : ℕ) (r : AppointmentRow) (t : Rows)
    → IsValid t
    → IsValid (insert_held fails uuid now clock r t).1
unfolding insert_held
insert_held-IsValid fails uuid now clock r t v =
    ground (arith, v, any-clash-held (stored_row uuid now r) t refl)

apply-IsValid : (c : Call) (t : Rows) → IsValid t → IsValid (apply c t)
unfolding apply promote cancel sweep_batch clear_occupation_ids
apply-IsValid (inserts fails uuid now clock r) t v = insert_held-IsValid fails uuid now clock r t v
apply-IsValid (promotes_id fails id key fp) t v = elim (Option-cases (find (promotes id) t)) [
  | inl e ↦ ground (arith, e)
  | inr (r, e) ↦ ground (arith, e, promote-IsValid id key fp t)
]
apply-IsValid (cancels_id fails id) t v = ground (arith, cancel-IsValid id t v)
apply-IsValid (sweeps fails limit now) t v = ground (arith, sweep-IsValid (batch limit now t) t v)
apply-IsValid (clears fails id) t v = ground (arith, clear-IsValid id t v)

pub run-IsValid : (cs : List Call) (t : Rows) → IsValid t → IsValid (run cs t)
unfolding run
run-IsValid [] t v = v
run-IsValid (c ∷ cs) t v = run-IsValid cs (apply c t) (apply-IsValid c t v)

-- the rows of a valid table that are confirmed under one key are one row
confirmed_once :
    (t : Rows) (q r : AppointmentRow) (key : String)
    → IsValid t
    → In q t
    → In r t
    → q.status ≡ confirmed
    → r.status ≡ confirmed
    → q.idempotency_key ≡ some key
    → r.idempotency_key ≡ some key
    → q ≡ r
unfolding clash
confirmed_once [] q r key v m n cq cr kq kr = elim m [ ]
confirmed_once (x ∷ t) q r key v (here p) (here p') cq cr kq kr = sym p ∙ p'
confirmed_once (x ∷ t) q r key v (here p) (there n) cq cr kq kr =
    absurd (ground (arith, any-In (clash x) t v.1 n, p, kq, kr, cq, cr, eq_refl key))
confirmed_once (x ∷ t) q r key v (there m) (here p) cq cr kq kr =
    absurd (ground (arith, any-In (clash x) t v.1 m, p, kq, kr, cq, cr, eq_refl key))
confirmed_once (x ∷ t) q r key v (there m) (there n) cq cr kq kr =
    confirmed_once t q r key v.3 m n cq cr kq kr

-- In every history of the store an idempotency key stands on at most one CONFIRMED appointment.
pub one_confirmed_per_key :
    (cs : List Call) (q r : AppointmentRow) (key : String)
    → In q (run cs [])
    → In r (run cs [])
    → q.status ≡ confirmed
    → r.status ≡ confirmed
    → q.idempotency_key ≡ some key
    → r.idempotency_key ≡ some key
    → q ≡ r
one_confirmed_per_key cs q r key = confirmed_once (run cs []) q r key (run-IsValid cs [] tt)

-- The row stands in the table, further on at most.
pub record Stays (r : AppointmentRow) (t : Rows) : Type 0 where
  pub row : AppointmentRow
  pub member : In row t
  pub keeps : Keeps r row

Keeps-trans : {q r s : AppointmentRow} → Keeps q r → Keeps r s → Keeps q s
Keeps-trans a b = record {
  id = b.id ∙ a.id;
  dealership_id = b.dealership_id ∙ a.dealership_id;
  customer_id = b.customer_id ∙ a.customer_id;
  vehicle_id = b.vehicle_id ∙ a.vehicle_id;
  service_type_id = b.service_type_id ∙ a.service_type_id;
  start_at = b.start_at ∙ a.start_at;
  end_at = b.end_at ∙ a.end_at;
  forward = omega (arith, a.forward, b.forward);
}

Keeps-refl : (r : AppointmentRow) → Keeps r r
Keeps-refl r = ground arith

Stays-map :
    (g : AppointmentRow → AppointmentRow) (t : Rows)
    → ((s : AppointmentRow) → Keeps s (g s))
    → (r : AppointmentRow) → Stays r t
    → Stays r (map g t)
Stays-map g t keeps r h = record {
  row = g h.row;
  member = In-map g h.member;
  keeps = Keeps-trans h.keeps (keeps h.row);
}

Stays-insert :
    (fails : Bool) (uuid : String) (now clock : ℕ) (q : AppointmentRow) (t : Rows)
    (r : AppointmentRow)
    → Stays r t
    → Stays r (insert_held fails uuid now clock q t).1
unfolding insert_held
Stays-insert fails uuid now clock q t r h =
    let later : Stays r (stored_row uuid now q ∷ t) = record {
      row = h.row;
      member = there h.member;
      keeps = h.keeps;
    } in
    ground (arith, h, later)

apply-Stays : (c : Call) (t : Rows) (r : AppointmentRow) → Stays r t → Stays r (apply c t)
unfolding apply promote cancel sweep_batch clear_occupation_ids
apply-Stays (inserts fails uuid now clock q) t r h = Stays-insert fails uuid now clock q t r h
apply-Stays (promotes_id fails id key fp) t r h =
    ground (arith, h, Stays-map (promote_row id key fp) t (promote_row-Keeps id key fp) r h)
apply-Stays (cancels_id fails id) t r h =
    ground (arith, h, Stays-map (cancel_row id) t (cancel_row-Keeps id) r h)
apply-Stays (sweeps fails limit now) t r h =
    let chosen = batch limit now t in
    ground (arith, h, Stays-map (sweep_row chosen) t (sweep_row-Keeps chosen) r h)
apply-Stays (clears fails id) t r h =
    ground (arith, h, Stays-map (clear_row id) t (clear_row-Keeps id) r h)

run-Stays : (cs : List Call) (t : Rows) (r : AppointmentRow) → Stays r t → Stays r (run cs t)
unfolding run
run-Stays [] t r h = h
run-Stays (c ∷ cs) t r h = run-Stays cs (apply c t) r (apply-Stays c t r h)

-- No history loses an appointment, changes its parties, its service or its interval, or takes its
-- status back (HELD, then CONFIRMED, then CANCELLED).
pub appointment_kept :
    (cs : List Call) (t : Rows) (r : AppointmentRow) → In r t → Stays r (run cs t)
appointment_kept cs t r m = run-Stays cs t r (record { row = r; member = m; keeps = Keeps-refl r })
