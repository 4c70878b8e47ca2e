-- ===== src/Occupancy/Claim.antt =====
-- The claim loop that `reserve` runs in backend/services/technician/reserve.go and, over another
-- query, in backend/services/bay/reserve.go. The query that picks the candidate is a parameter.
pub mod Sound
pub mod Complete
pub mod Live
use unified_service_schedule.Common.{
  ℕ, zero, suc, ◌+◌, String, Bool, Option, none, some, Result, ok, err, if◌then◌else◌,
}
use unified_service_schedule.Occupancy.{
  OccRow, held, Table, hold_ttl, Insertion, inserted, exclusion_violation, rejected, insert,
  delete_expired,
}
use unified_service_schedule.Rpc.{Code, failed_precondition, internal_error}

-- The row that the query picked.
pub record Picked : Type 0 where
  pub resource_id : String
  pub start_at : ℕ
  pub end_at : ℕ

-- One claimed interval on a resource.
pub record Occupation : Type 0 where
  pub id : String
  pub resource_id : String
  pub end : ℕ

-- What surrounds one attempt: the clock of each statement, the id that gen_random_uuid() gives,
-- what other transactions commit before the statement's snapshot, between the snapshot and the
-- constraint check, and before the DELETE, and whether the driver reports an error of its own.
pub record Turn : Type 0 where
  pub claim_now : ℕ
  pub new_id : String
  pub before : Table → Table
  pub between : Table → Table
  pub claim_fails : Bool
  pub after : Table → Table
  pub reap_now : ℕ
  pub reap_fails : Bool

-- The error that `reserve` returns: ErrUnavailable, or any other.
pub data ReserveError : Type 0 where
  unavailable internal : ReserveError

-- What the handlers make of an error of `reserve`.
unfoldable pub reserve_code : ReserveError → Code
reserve_code unavailable = failed_precondition
reserve_code internal = internal_error

-- What one INSERT…SELECT came to: `empty` is pgx.ErrNoRows, `collision` is SQLSTATE 23P01.
pub data Claimed : Type 0 where
  won : Occupation → Claimed
  empty collision failed : Claimed

abbrev pub max_reserve_attempts : ℕ
max_reserve_attempts = 3

unfoldable pub held_row : Turn → Picked → OccRow
held_row turn c = record {
  id = turn.new_id;
  resource_id = c.resource_id;
  start_at = c.start_at;
  end_at = c.end_at;
  status = held;
  hold_expires_at = some (turn.claim_now + hold_ttl);
}

unfoldable pub occupation : Turn → Picked → Occupation
occupation turn c = record { id = turn.new_id; resource_id = c.resource_id; end = c.end_at }

insert_result : Turn → Picked → Table → Insertion → Claimed × Table
unfolding occupation
insert_result turn c t (inserted u) = (won (occupation turn c), u)
insert_result turn c t exclusion_violation = (collision, t)
insert_result turn c t rejected = (failed, t)

insert_picked : Turn → Option Picked → Table → Claimed × Table
unfolding insert_result held_row
insert_picked turn none t = (empty, t)
insert_picked turn (some c) t = insert_result turn c t (insert (held_row turn c) t)

-- How one round of the loop ends: with an answer, or with what the rounds left give.
abbrev settle :
    Claimed
    → Table
    → Result ReserveError Occupation × Table
    → Result ReserveError Occupation × Table
settle (won o) u again = (ok o, u)
settle failed u again = (err internal, u)
settle empty u again = again
settle collision u again = again

module _ (pick : Table → Option Picked) where
  -- The candidate is read from the snapshot; the constraints are checked on what is there by then.
  unfoldable pub claim_once : Turn → Table → Claimed × Table
  unfolding insert_picked
  claim_once turn t =
      let seen = turn.before t in
      if turn.claim_fails
      then (failed, turn.between seen)
      else insert_picked turn (pick seen) (turn.between seen)

  -- The rounds left of `for attempt := 1; attempt <= maxReserveAttempts; attempt++`.
  unfoldable pub claim_loop : ℕ → (ℕ → Turn) → Table → Result ReserveError Occupation × Table
  claim_loop zero turns t = (err unavailable, t)
  claim_loop (suc n) turns t =
      let turn = turns n in
      let (c, u) = claim_once turn t in
      let w = turn.after u in
      let again =
        if turn.reap_fails
        then (err unavailable, w)
        else claim_loop n turns (delete_expired turn.reap_now w) in
      settle c u again
