-- ===== src/Technician.antt =====
-- The technician allocator: backend/services/technician/reserve.go over the schema of
-- backend/services/technician/migrations. The tables that no code of the program writes
-- (technician, technician_skill, technician_shift, technician_absence) are the roster.
pub mod Server
pub mod Query
pub mod Reserve
pub mod History
pub mod Client
pub mod Fixture
mod Examples
use Prim.Native.String.{◌++◌ as append}
use unified_service_schedule.Common.{
  ℕ, ◌+◌, ◌*◌, String, Bool, true, false, not, ◌&&◌, ◌||◌, Option, none, some, List, [], ◌∷◌, ◌++◌,
  map, ◌==◌, ltb, leb, eqb, any, select, least, if◌then◌else◌, Result, ok, err,
}
use unified_service_schedule.Occupancy.{
  Table, minute, overlaps, is_busy, update_confirmed, update_released,
}
use unified_service_schedule.Occupancy.Claim.{
  Picked, Occupation, Turn, ReserveError, claim_loop, max_reserve_attempts,
}
use unified_service_schedule.Rpc.{Code, invalid_argument}
unfoldable pub use unified_service_schedule.Occupancy.Handlers.{confirm, release}

pub record Technician : Type 0 where
  pub id : String
  pub dealership_id : String
  pub active : Bool
  pub timezone : String

pub record Skill : Type 0 where
  pub technician_id : String
  pub service_type_id : String
  pub duration_minutes : ℕ

pub record Shift : Type 0 where
  pub technician_id : String
  pub weekday : ℕ
  pub start_minutes : ℕ
  pub end_minutes : ℕ

pub record Absence : Type 0 where
  pub technician_id : String
  pub start_at : ℕ
  pub end_at : ℕ

pub record Roster : Type 0 where
  pub technicians : List Technician
  pub skills : List Skill
  pub shifts : List Shift
  pub absences : List Absence

-- What Postgres computes and the program does not: EXTRACT(ISODOW | HOUR | MINUTE FROM (t AT TIME
-- ZONE tz)), and hashtext, as a number in the order of its int4.
pub record Postgres : Type 0 where
  pub isodow : String → ℕ → ℕ
  pub hour : String → ℕ → ℕ
  pub minute_of_hour : String → ℕ → ℕ
  pub hashtext : String → ℕ

-- `reserveParams`
pub record ReserveParams : Type 0 where
  pub dealership_id : String
  pub service_type_id : String
  pub start : ℕ
  pub latest_end : ℕ
  pub request_id : String

-- JOIN technician_skill sk ON sk.technician_id = t.id AND sk.service_type_id = $2
unfoldable pub with_skills : String → Technician → List Skill → List (Technician × Skill)
with_skills service t skills =
    map (λ sk. (t, sk))
      (select (λ sk. (sk.technician_id == t.id) && (sk.service_type_id == service)) skills)

unfoldable pub joined : String → List Technician → List Skill → List (Technician × Skill)
unfolding with_skills
joined service [] skills = []
joined service (t ∷ ts) skills = with_skills service t skills ++ joined service ts skills

-- $3 + make_interval(mins => sk.duration_minutes)
unfoldable pub end_of : ℕ → Skill → ℕ
end_of start sk = start + sk.duration_minutes * minute

module _ (pg : Postgres) where
  -- HOUR * 60 + MINUTE of the local time: seconds are dropped.
  unfoldable pub minute_of_day : String → ℕ → ℕ
  minute_of_day tz t = pg.hour tz t * 60 + pg.minute_of_hour tz t

  unfoldable pub shift_covers : Technician → ℕ → ℕ → Shift → Bool
  unfolding minute_of_day
  shift_covers t s e sh =
      (sh.technician_id == t.id)
      && eqb sh.weekday (pg.isodow t.timezone s)
      && leb sh.start_minutes (minute_of_day t.timezone s)
      && leb (minute_of_day t.timezone e) sh.end_minutes

  unfoldable pub absent : Technician → ℕ → ℕ → Absence → Bool
  absent t s e a = (a.technician_id == t.id) && overlaps a.start_at a.end_at s e

  -- The WHERE clause of the claim.
  unfoldable pub qualifies : Roster → ReserveParams → Table → Technician × Skill → Bool
  unfolding end_of shift_covers absent
  qualifies ro p occ (t, sk) =
      (t.dealership_id == p.dealership_id)
      && t.active
      && leb (end_of p.start sk) p.latest_end
      && any (shift_covers t p.start (end_of p.start sk)) ro.shifts
      && not (any (absent t p.start (end_of p.start sk)) ro.absences)
      && not (is_busy t.id p.start (end_of p.start sk) occ)

  -- ORDER BY hashtext(t.id::text || $5)
  unfoldable pub pick_hash : ReserveParams → Technician × Skill → ℕ
  pick_hash p (t, sk) = pg.hashtext (append t.id p.request_id)

  unfoldable pub picked : ReserveParams → Option (Technician × Skill) → Option Picked
  unfolding end_of
  picked p none = none
  picked p (some (t, sk)) =
      some (record { resource_id = t.id; start_at = p.start; end_at = end_of p.start sk })

  -- The SELECT of the claim.
  unfoldable pub pick : Roster → ReserveParams → Table → Option Picked
  unfolding picked joined qualifies pick_hash
  pick ro p occ = picked p (
      least (pick_hash p)
        (select (qualifies ro p occ) (joined p.service_type_id ro.technicians ro.skills)))

  unfoldable pub reserve :
      Roster → ReserveParams → (ℕ → Turn) → Table → Result ReserveError Occupation × Table
  unfolding pick
  reserve ro p turns occ = claim_loop (pick ro p) max_reserve_attempts turns occ
