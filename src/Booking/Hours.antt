-- ===== src/Booking/Hours.antt =====
-- Step 2 of the write path, the opening hours: latestEnd and withinHours of
-- backend/services/booking/saga.go.
use unified_service_schedule.Common.{
  ℕ, ◌+◌, ◌*◌, ◌≤◌, String, ◌≡◌, refl, Bool, true, false, not, Option, none, some, arith, eqb, ltb,
  if◌then◌else◌, Option-cases, inl, inr,
}
use unified_service_schedule.Occupancy.{minute}

-- Go's package time on the zone database: whether LoadLocation knows the zone, and of the local
-- date of an instant its Weekday (Sunday is 0) and the instant of its 00:00.
pub record Zones : Type 0 where
  pub known : String → Bool
  pub weekday : String → ℕ → ℕ
  pub midnight : String → ℕ → ℕ

pub record OpeningHours : Type 0 where
  pub weekday : ℕ
  pub open_minutes : ℕ
  pub close_minutes : ℕ

pub record Snapshot : Type 0 where
  pub dealership_id : String
  pub timezone : String
  pub opening_hours : ℕ → Option OpeningHours
  pub service_type_ok : Bool
  pub vehicle_belongs : Bool

module _ (zones : Zones) where
  unfoldable pub iso_weekday : String → ℕ → ℕ
  iso_weekday tz t = let d = zones.weekday tz t in if eqb d 0 then 7 else d

  -- The hours of the day on which the instant falls in the dealership's zone.
  unfoldable pub hours_at : Snapshot → ℕ → Option OpeningHours
  unfolding iso_weekday
  hours_at snap start =
      if zones.known snap.timezone
      then snap.opening_hours (iso_weekday snap.timezone start)
      else none

  -- The instant so many minutes after the local day's midnight.
  unfoldable pub at_minutes : Snapshot → ℕ → ℕ → ℕ
  at_minutes snap start minutes = zones.midnight snap.timezone start + minutes * minute

  unfoldable pub latest_end : Snapshot → ℕ → Option ℕ
  unfolding hours_at at_minutes
  latest_end snap start = elim (hours_at snap start) [
    | none ↦ none
    | some h ↦ some (at_minutes snap start h.close_minutes)
  ]

  unfoldable pub within_hours : Snapshot → ℕ → Bool
  unfolding hours_at at_minutes
  within_hours snap start = elim (hours_at snap start) [
    | none ↦ false
    | some h ↦ not (ltb start (at_minutes snap start h.open_minutes))
  ]

  -- The day is open, from its opening time to its close, and the instant does not come before.
  pub record Open (snap : Snapshot) (start close_at : ℕ) : Type 0 where
    pub hours : OpeningHours
    pub listed : hours_at snap start ≡ some hours
    pub opened : at_minutes snap start hours.open_minutes ≤ start
    pub closes : close_at ≡ at_minutes snap start hours.close_minutes

  -- A start within hours has a close.
  pub within_hours-Open :
      (snap : Snapshot) (start : ℕ)
      → within_hours snap start ≡ true
      → (close_at : ℕ) × (latest_end snap start ≡ some close_at) × Open snap start close_at
  unfolding within_hours latest_end
  within_hours-Open snap start h = elim (Option-cases (hours_at snap start)) [
    | inl e ↦ absurd (ground (arith, e))
    | inr (x, e) ↦ (
      at_minutes snap start x.close_minutes,
      ground (arith, e),
      record { hours = x; listed = e; opened = ground (arith, e); closes = refl },
    )
  ]
