-- ===== src/Reaper.antt =====
-- The periodic reaper of an allocator: backend/shared/pkg/reaper/reaper.go. Its ticker is the
-- environment: each tick is one call.
use unified_service_schedule.Common.{ℕ, Bool, if◌then◌else◌}
use unified_service_schedule.Occupancy.{Table, delete_expired}

-- One tick; after an error of the DELETE the loop goes on.
unfoldable pub tick : Bool → ℕ → Table → Table
tick fails now t = if fails then t else delete_expired now t
