-- ===== src/Technician/Fixture.antt =====
-- A roster of two technicians for the tests, one of them on a morning shift.
use unified_service_schedule.Common.{◌*◌, ◌/◌, ◌%◌, true, false, [], ◌∷◌, arith, here, there}
use unified_service_schedule.Occupancy.{minute}
use unified_service_schedule.Technician.{Technician, Skill, Shift, Absence, Roster, Postgres}
use unified_service_schedule.Technician.Reserve.{DurationsPositive}

-- Days of 1440 minutes, the first of them a Monday.
abbrev pub clocks : Postgres
clocks = record {
  isodow = λ tz t. 1;
  hour = λ tz t. t / (60 * minute) % 24;
  minute_of_hour = λ tz t. t / minute % 60;
  hashtext = λ s. 0;
}

abbrev pub ann : Technician
ann = record { id = "ann"; dealership_id = "north"; active = true; timezone = "UTC" }

abbrev pub bob : Technician
bob = record { id = "bob"; dealership_id = "north"; active = false; timezone = "UTC" }

abbrev pub oil_change : Skill
oil_change = record { technician_id = "ann"; service_type_id = "oil"; duration_minutes = 30 }

abbrev pub monday : Shift
monday = record { technician_id = "ann"; weekday = 1; start_minutes = 480; end_minutes = 720 }

abbrev pub away : Absence
away = record { technician_id = "ann"; start_at = 660 * minute; end_at = 720 * minute }

abbrev pub roster : Roster
roster = record {
  technicians = bob ∷ ann ∷ [];
  skills = oil_change ∷ [];
  shifts = monday ∷ [];
  absences = away ∷ [];
}

pub roster-DurationsPositive : DurationsPositive clocks roster
roster-DurationsPositive sk (here p) = ground (arith, p)
roster-DurationsPositive sk (there m) = elim m [ ]
