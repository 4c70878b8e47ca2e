-- ===== src/Booking/Store/Valid.antt =====
-- What the schema of `appointment` promises, and the statements.
use unified_service_schedule.Common.{
  ℕ, ◌≤◌, ◌<◌, String, ◌≡◌, refl, Bool, false, not, ◌&&◌, Option, none, some, [], ◌∷◌, map, arith,
  ◌==◌, eq_iff, any,
}
use unified_service_schedule.Booking.Types.{Status, held, confirmed, cancelled, AppointmentRow}
use unified_service_schedule.Booking.Store.{
  Rows, has_id, is_confirmed, key_is, has_key, key_taken, promote_row, cancel_row, sweep_row,
  clear_row,
}

-- Two keys that are both set and the same.
abbrev pub same_key : Option String → Option String → Bool
same_key (some k) o = key_is k o
same_key none o = false

-- Two CONFIRMED rows with one key: what the partial unique index refuses.
unfoldable pub clash : AppointmentRow → AppointmentRow → Bool
clash r s =
    is_confirmed r.status && is_confirmed s.status && same_key r.idempotency_key s.idempotency_key

-- Each row has an id and a proper interval of its own, and no two CONFIRMED rows share a key.
abbrev pub IsValid : Rows → Type 0
IsValid [] = Unit {0}
IsValid (r ∷ t) =
    (any (has_id r.id) t ≡ false) × (any (clash r) t ≡ false) × (r.start_at < r.end_at) × IsValid t

-- How far an appointment has come.
abbrev pub rank : Status → ℕ
rank held = 0
rank confirmed = 1
rank cancelled = 2

-- An update of a row in place: the business facts stay, and the status does not go back.
pub record Keeps (r s : AppointmentRow) : Type 0 where
  pub id : s.id ≡ r.id
  pub dealership_id : s.dealership_id ≡ r.dealership_id
  pub customer_id : s.customer_id ≡ r.customer_id
  pub vehicle_id : s.vehicle_id ≡ r.vehicle_id
  pub service_type_id : s.service_type_id ≡ r.service_type_id
  pub start_at : s.start_at ≡ r.start_at
  pub end_at : s.end_at ≡ r.end_at
  pub forward : rank r.status ≤ rank s.status

pub promote_row-Keeps :
    (id key fp : String) (r : AppointmentRow) → Keeps r (promote_row id key fp r)
unfolding promote_row
promote_row-Keeps id key fp r = ground arith

pub cancel_row-Keeps : (id : String) (r : AppointmentRow) → Keeps r (cancel_row id r)
unfolding cancel_row
cancel_row-Keeps id r = ground arith

pub sweep_row-Keeps : (chosen : Rows) (r : AppointmentRow) → Keeps r (sweep_row chosen r)
unfolding sweep_row
sweep_row-Keeps chosen r = ground arith

pub clear_row-Keeps : (id : String) (r : AppointmentRow) → Keeps r (clear_row id r)
unfolding clear_row
clear_row-Keeps id r = ground arith

-- An update that keeps the rows and makes no new clash keeps the table valid.
module _ (f : AppointmentRow → AppointmentRow) (keeps : (r : AppointmentRow) → Keeps r (f r))
    (calm : (r s : AppointmentRow) → clash r s ≡ false → clash (f r) (f s) ≡ false) where
  any_id-map : (i : String) (t : Rows) → any (has_id i) (map f t) ≡ any (has_id i) t
  unfolding has_id
  any_id-map i [] = refl
  any_id-map i (r ∷ t) = ground (arith, any_id-map i t, (keeps r).id)

  any-clash-map :
      (r : AppointmentRow) (t : Rows)
      → any (clash r) t ≡ false
      → any (clash (f r)) (map f t) ≡ false
  any-clash-map r [] h = refl
  any-clash-map r (s ∷ t) h = ground (arith, any-clash-map r t, calm r s)

  pub map-IsValid : (t : Rows) → IsValid t → IsValid (map f t)
  map-IsValid [] v = tt
  map-IsValid (r ∷ t) v = (
    rw ((keeps r).id, any_id-map) v.0,
    any-clash-map r t v.1,
    rw ((keeps r).start_at, (keeps r).end_at) v.2,
    map-IsValid t v.3,
  )

pub cancel-IsValid : (id : String) (t : Rows) → IsValid t → IsValid (map (cancel_row id) t)
unfolding cancel_row clash
cancel-IsValid id t v =
    map-IsValid (cancel_row id) (cancel_row-Keeps id) (λ r s h. ground arith) t v

pub sweep-IsValid : (chosen t : Rows) → IsValid t → IsValid (map (sweep_row chosen) t)
unfolding sweep_row clash
sweep-IsValid chosen t v =
    map-IsValid (sweep_row chosen) (sweep_row-Keeps chosen) (λ r s h. ground arith) t v

pub clear-IsValid : (id : String) (t : Rows) → IsValid t → IsValid (map (clear_row id) t)
unfolding clear_row clash
clear-IsValid id t v = map-IsValid (clear_row id) (clear_row-Keeps id) (λ r s h. ground arith) t v

-- a set key compares the same both ways
key_is_comm : (key : String) (o : Option String) → key_is key o ≡ same_key o (some key)
key_is_comm key none = refl
key_is_comm key (some k) = ground (arith, eq_iff k key, eq_iff key k)

module _ (id key fp : String) where
  f : AppointmentRow → AppointmentRow
  f = promote_row id key fp

  -- a pair of rows with different ids, neither of which holds the key
  pair-promote :
      (r s : AppointmentRow)
      → has_id r.id s ≡ false
      → (not (key == "") && has_key key r) ≡ false
      → (not (key == "") && has_key key s) ≡ false
      → clash r s ≡ false
      → clash (f r) (f s) ≡ false
  unfolding f promote_row has_key has_id clash
  pair-promote r s ne hr hs h = ground (
    arith,
    eq_iff r.id id,
    eq_iff s.id id,
    eq_iff s.id r.id,
    key_is_comm key r.idempotency_key,
    key_is_comm key s.idempotency_key,
  )

  any-promote :
      (r : AppointmentRow) (t : Rows)
      → any (has_id r.id) t ≡ false
      → (not (key == "") && has_key key r) ≡ false
      → key_taken key t ≡ false
      → any (clash r) t ≡ false
      → any (clash (f r)) (map f t) ≡ false
  unfolding key_taken
  any-promote r [] ne hr ht h = refl
  any-promote r (s ∷ t) ne hr ht h = ground (arith, pair-promote r s, any-promote r t)

  any_id-promote : (i : String) (t : Rows) → any (has_id i) (map f t) ≡ any (has_id i) t
  unfolding has_id f
  any_id-promote i [] = refl
  any_id-promote i (r ∷ t) = ground (arith, any_id-promote i t, (promote_row-Keeps id key fp r).id)

  pub promote-IsValid :
      (t : Rows) → key_taken key t ≡ false → IsValid t → IsValid (map (promote_row id key fp) t)
  unfolding key_taken f
  promote-IsValid [] free v = tt
  promote-IsValid (r ∷ t) free v =
      let keep = promote_row-Keeps id key fp in
      (
        rw ((keep r).id, any_id-promote r.id t) v.0,
        any-promote r t v.0 (ground arith) (ground arith) v.1,
        rw ((keep r).start_at, (keep r).end_at) v.2,
        promote-IsValid t (ground arith) v.3,
      )
