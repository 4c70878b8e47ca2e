-- ===== src/Occupancy.antt =====
-- The occupation tables of the two allocators, and the SQL statements that run on them:
-- backend/services/technician/reserve.go and backend/services/bay/reserve.go send the same four
-- statements to `tech_occupation` and `bay_occupation`, whose schemas differ in one column's name.
-- A table is the list of its rows. Instants are counts of microseconds, the resolution of
-- timestamptz.
pub mod Claim
pub mod Valid
pub mod Steps
pub mod Kept
pub mod Handlers
pub mod Lifecycle
pub mod History
pub mod Calendar
mod Examples
use unified_service_schedule.Common.{
  ℕ, ◌+◌, ◌*◌, String, Bool, true, false, not, ◌&&◌, ◌||◌, Option, none, some, List, ◌∷◌, map, ◌==◌,
  ltb, leb, any, select, if◌then◌else◌,
}

pub data OccStatus : Type 0 where
  held confirmed released : OccStatus

-- `resource_id` is the column technician_id or service_bay_id.
pub record OccRow : Type 0 where
  pub id : String
  pub resource_id : String
  pub start_at : ℕ
  pub end_at : ℕ
  pub status : OccStatus
  pub hold_expires_at : Option ℕ

abbrev pub Table : Type 0
Table = List OccRow

abbrev pub minute : ℕ
minute = 60 * 1000000

-- interval '120 seconds'
abbrev pub hold_ttl : ℕ
hold_ttl = 120 * 1000000

-- status IN ('HELD', 'CONFIRMED')
abbrev pub is_live : OccStatus → Bool
is_live released = false
is_live _ = true

-- tstzrange(a, b, '[)') && tstzrange(c, d, '[)'): an empty range meets none.
abbrev pub overlaps : ℕ → ℕ → ℕ → ℕ → Bool
overlaps a b c d = ltb a b && ltb c d && ltb a d && ltb c b

-- The row is a live claim of the resource that meets [s, e).
unfoldable pub claims : String → ℕ → ℕ → OccRow → Bool
claims resource s e r =
    (r.resource_id == resource) && is_live r.status && overlaps r.start_at r.end_at s e

unfoldable pub is_busy : String → ℕ → ℕ → Table → Bool
is_busy resource s e t = any (claims resource s e) t

-- What the insertion of one row came to: `rejected` is a violated CHECK or primary key.
pub data Insertion : Type 0 where
  inserted : Table → Insertion
  exclusion_violation rejected : Insertion

-- An INSERT of a live row under the table's constraints: the exclusion on the resource and the
-- range is the last to be checked.
unfoldable pub insert : OccRow → Table → Insertion
unfolding is_busy
insert r t =
    if ltb r.start_at r.end_at && not (any (λ s. s.id == r.id) t)
    then if is_live r.status && is_busy r.resource_id r.start_at r.end_at t
      then exclusion_violation
      else inserted (r ∷ t)
    else rejected

-- status = 'HELD' AND hold_expires_at <= now()
unfoldable pub hold_expired : ℕ → OccStatus → Option ℕ → Bool
hold_expired now held (some x) = leb x now
hold_expired now _ _ = false

-- DELETE … WHERE status = 'HELD' AND hold_expires_at <= now()
unfoldable pub delete_expired : ℕ → Table → Table
delete_expired now t = select (λ r. not (hold_expired now r.status r.hold_expires_at)) t

-- (status = 'HELD' AND (hold_expires_at IS NULL OR hold_expires_at > now())) OR status =
-- 'CONFIRMED'
unfoldable pub confirmable : ℕ → OccStatus → Option ℕ → Bool
confirmable now held none = true
confirmable now held (some x) = ltb now x
confirmable now confirmed _ = true
confirmable now released _ = false

unfoldable pub confirms : ℕ → String → OccRow → Bool
unfolding confirmable
confirms now id r = (r.id == id) && confirmable now r.status r.hold_expires_at

unfoldable pub confirm_row : ℕ → String → OccRow → OccRow
unfolding confirms
confirm_row now id r =
    if confirms now id r then record r { status = confirmed; hold_expires_at = none } else r

-- The UPDATE of Confirm, with whether a row was affected.
unfoldable pub update_confirmed : ℕ → String → Table → Bool × Table
unfolding confirm_row
update_confirmed now id t = (any (confirms now id) t, map (confirm_row now id) t)

unfoldable pub release_row : String → OccRow → OccRow
release_row id r = if (r.id == id) && is_live r.status then record r { status = released } else r

-- The UPDATE of Release.
unfoldable pub update_released : String → Table → Table
unfolding release_row
update_released id t = map (release_row id) t
