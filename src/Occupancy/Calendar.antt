-- ===== src/Occupancy/Calendar.antt =====
-- What an occupation table promises to the other services, without rows: at each instant, the claim
-- that has the resource. The operations of a calendar are the contract of both reserve.go files.
pub mod Moves
use unified_service_schedule.Common.{
  ℕ, ◌≤◌, ◌<◌, String, ◌≡◌, ◌≢◌, Bool, false, ◌&&◌, Option, none, some, [], ◌∷◌, ◌==◌, leb, ltb,
  any, if◌then◌else◌,
}
use unified_service_schedule.Occupancy.{OccRow, Table, held, confirmed, released, is_live}
use unified_service_schedule.Occupancy.Steps.{
  Step, claim, confirm, release, reap, Reach, start, next,
}

-- By resource and instant, the id of the claim.
abbrev pub Calendar : Type 0
Calendar = String → ℕ → Option String

-- Free everywhere.
abbrev pub blank : Calendar
blank resource x = none

-- The instant lies in the interval [s, e).
abbrev pub within : ℕ → ℕ → ℕ → Bool
within s e x = leb s x && ltb x e

abbrev pub covers : String → ℕ → OccRow → Bool
covers resource x r =
    (r.resource_id == resource) && is_live r.status && within r.start_at r.end_at x

-- The calendar of a table.
unfoldable pub calendar : Table → Calendar
calendar [] resource x = none
calendar (r ∷ t) resource x =
    let rest = calendar t resource x in if covers resource x r then some r.id else rest

-- The claim has the instant.
abbrev pub taken_by : (String → Bool) → Option String → Bool
taken_by p none = false
taken_by p (some id) = p id

-- A calendar with the interval given to the claim.
abbrev pub book : String → String → ℕ → ℕ → Calendar → Calendar
book id resource s e c =
    λ resource' x. if (resource == resource') && within s e x then some id else c resource' x

-- A calendar without the claims that are named.
abbrev pub drop : (String → Bool) → Calendar → Calendar
drop p c = λ resource x. if taken_by p (c resource x) then none else c resource x

-- The row is a hold whose time is over.
unfoldable pub is_due : ℕ → OccRow → Bool
is_due now r = elim r.status [
  | held ↦ elim r.hold_expires_at [ none ↦ false | some x ↦ leb x now ]
  | confirmed ↦ false
  | released ↦ false
]

-- The claims whose time is over, by their ids.
abbrev pub due : ℕ → Table → String → Bool
due now t id = any (λ r. (r.id == id) && is_due now r) t

-- What a statement is for the calendar: a claim books its interval, a confirmation changes nothing,
-- a release frees the claim, and the reaper frees the claims whose time is over.
unfoldable pub after_step : {t u : Table} → Step t u → Calendar → Calendar
after_step (claim r h e) c = book r.id r.resource_id r.start_at r.end_at c
after_step (confirm now id) c = c
after_step (release id) c = drop (λ i. i == id) c
after_step {t} (reap now) c = drop (due now t) c

-- The calendar that a history of statements comes to.
unfoldable pub replay : {t : Table} → Reach [] t → Calendar
unfolding after_step
replay start = blank
replay (next h st) = after_step st (replay h)

-- A claim is for a proper interval that is free at each of its instants, and its id has nothing yet.
unfoldable pub IsFree : {t u : Table} → Step t u → Calendar → Type 0
IsFree (claim r h e) c =
    (r.start_at < r.end_at)
    × ((x : ℕ) → r.start_at ≤ x → x < r.end_at → c r.resource_id x ≡ none)
    × ((resource : String) (x : ℕ) → c resource x ≢ some r.id)
IsFree (confirm now id) c = Unit {0}
IsFree (release id) c = Unit {0}
IsFree (reap now) c = Unit {0}

-- Each claim of the history is free in the calendar of the statements before it.
unfoldable pub TakesFree : {t : Table} → Reach [] t → Type 0
unfolding IsFree
TakesFree start = Unit {0}
TakesFree (next h st) = TakesFree h × IsFree st (replay h)
