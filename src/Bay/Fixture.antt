-- ===== src/Bay/Fixture.antt =====
-- Two bays for the tests, one of them out of use.
use unified_service_schedule.Common.{ℕ, String, true, false, List, [], ◌∷◌}
use unified_service_schedule.Bay.{ServiceBay}

abbrev pub hash : String → ℕ
hash s = 0

abbrev pub closed : ServiceBay
closed = record { id = "closed"; dealership_id = "north"; active = false }

abbrev pub lift : ServiceBay
lift = record { id = "lift"; dealership_id = "north"; active = true }

abbrev pub bays : List ServiceBay
bays = closed ∷ lift ∷ []
