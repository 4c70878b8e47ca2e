-- ===== src/Occupancy/Examples.antt =====
-- A table with a hold and a confirmed claim of one resource, back to back.
use unified_service_schedule.Common.{
  ℕ, ◌<◌, ◌≤◌, ◌≡◌, ◌==◌, any, ◌↔◌, false, none, some, [], ◌∷◌, arith, here, there, ok, refl,
  differ,
}
use unified_service_schedule.Occupancy.{
  OccRow, Table, held, confirmed, claims, insert, inserted, is_busy, update_confirmed, confirm_row,
  update_released, delete_expired,
}
use unified_service_schedule.Occupancy.Valid.{IsValid}
use unified_service_schedule.Occupancy.Steps.{Reach, start, next, Apart, no_double_booking}
use unified_service_schedule.Occupancy.Steps as Steps
use unified_service_schedule.Occupancy.Kept.{HasClaim, confirmed_kept}
use unified_service_schedule.Occupancy.Calendar.{calendar, replay, TakesFree}
use unified_service_schedule.Occupancy.Calendar.Moves.{Reach-replay, insert_accepts}
use unified_service_schedule.Occupancy.Handlers.{confirm, release}
use unified_service_schedule.Occupancy.Lifecycle.{
  confirm_before_ttl, release_reopens, repeats_change_nothing,
}

abbrev hold : OccRow
hold = record {
  id = "h";
  resource_id = "ann";
  start_at = 100;
  end_at = 200;
  status = held;
  hold_expires_at = some 50;
}

abbrev firm : OccRow
firm = record {
  id = "f";
  resource_id = "ann";
  start_at = 200;
  end_at = 300;
  status = confirmed;
  hold_expires_at = none;
}

-- The same claim before it was confirmed.
abbrev firm_hold : OccRow
firm_hold = record firm { status = held; hold_expires_at = some 40 }

abbrev table : Table
table = hold ∷ firm ∷ []

table-IsValid : IsValid table
unfolding is_busy claims
table-IsValid = ground arith

-- claimed, confirmed before its expiry, and followed by the hold
table-Reach : Reach [] table
unfolding update_confirmed confirm_row insert claims
table-Reach =
    next (next (next start (Steps.claim firm_hold refl refl)) (Steps.confirm 30 "f"))
      (Steps.claim hold refl refl)

no_double_booking_example : Apart hold firm
no_double_booking_example =
    no_double_booking hold firm table-Reach (here refl) (there (here refl)) (differ "h" "f" refl)
      refl refl refl

confirm_before_ttl_example : ((confirm false 49 "h" table).0 ≡ ok tt) ↔ (49 < 50)
confirm_before_ttl_example =
    confirm_before_ttl table hold 49 50 table-IsValid (here refl) (differ "h" "" refl) refl refl

release_reopens_example : is_busy "ann" 200 300 (release false "f" table).1 ≡ false
release_reopens_example =
    release_reopens table firm table-IsValid (there (here refl)) (differ "f" "" refl) refl

-- The reaper passes, and the hold is released.
abbrev later : Reach table (update_released "h" (delete_expired 60 table))
later = next (next start (Steps.reap 60)) (Steps.release "h")

confirmed_kept_example : HasClaim firm (update_released "h" (delete_expired 60 table))
confirmed_kept_example =
    confirmed_kept firm later ((tt, (λ p. cc)), (λ p. differ "h" "f" refl (ground (arith, p))))
      (record {
        row = firm;
        member = there (here refl);
        id = refl;
        resource = refl;
        start_at = refl;
        end_at = refl;
        status = refl;
      })

Reach-replay_example : (calendar table ≡ replay table-Reach) × TakesFree table-Reach
Reach-replay_example = Reach-replay table-Reach

repeats_change_nothing_example :
    (confirm false 90 "h" (confirm false 49 "h" table).1 ≡ confirm false 49 "h" table)
    × ((release false "h" table).0 ≡ ok tt)
    × (release false "h" (release false "h" table).1 ≡ release false "h" table)
repeats_change_nothing_example =
    repeats_change_nothing 49 90 "h" table (omega arith) (differ "h" "" refl)

-- the hold next to the confirmed claim
insert_accepts_example : (insert hold (firm ∷ []) ≡ inserted table) ↔ (
    (100 < 200)
    × (any (λ s. s.id == "h") (firm ∷ []) ≡ false)
    × ((x : ℕ) → 100 ≤ x → x < 200 → calendar (firm ∷ []) "ann" x ≡ none))
insert_accepts_example = insert_accepts hold (firm ∷ []) refl
