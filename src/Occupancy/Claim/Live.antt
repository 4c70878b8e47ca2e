-- ===== src/Occupancy/Claim/Live.antt =====
-- Which claims live after the claim loop and after a release, by their ids.
use unified_service_schedule.Common.{
  ℕ, zero, suc, String, ◌≡◌, ◌≢◌, refl, Bool, true, false, ◌&&◌, Option, none, some, [], ◌∷◌, ◌==◌,
  eq_iff, arith, any, Result, ok, err,
}
use unified_service_schedule.Occupancy.{
  OccRow, Table, is_live, Insertion, inserted, exclusion_violation, rejected, insert,
  delete_expired, update_released, update_confirmed, confirm_row, confirmable,
}
use unified_service_schedule.Occupancy.Valid.{insert-eq}
use unified_service_schedule.Occupancy.Claim.{
  Picked, Occupation, Turn, ReserveError, Claimed, won, empty, collision, failed, held_row,
  occupation, insert_result, insert_picked, claim_once, claim_loop, settle,
}
use unified_service_schedule.Occupancy.Claim.Complete.{Quiet}

abbrev is_claim : String → OccRow → Bool
is_claim x r = (r.id == x) && is_live r.status

-- A row with the id is a live claim.
unfoldable pub live : Table → String → Bool
live t x = any (is_claim x) t

pub live-delete_expired :
    (now : ℕ) (t : Table) (x : String) → live (delete_expired now t) x ≡ true → live t x ≡ true
unfolding live delete_expired
live-delete_expired now [] x h = h
live-delete_expired now (r ∷ t) x h = ground (arith, live-delete_expired now t x)

pub live-release_self : (t : Table) (x : String) → live (update_released x t) x ≡ false
unfolding live update_released
live-release_self [] x = refl
live-release_self (r ∷ t) x = ground (arith, live-release_self t x)

pub live-release :
    (t : Table) (x y : String) → live (update_released x t) y ≡ true → live t y ≡ true
unfolding live update_released
live-release [] x y h = h
live-release (r ∷ t) x y h = ground (arith, live-release t x y)

pub live-confirm :
    (now : ℕ) (t : Table) (x y : String)
    → live (update_confirmed now x t).1 y ≡ true
    → live t y ≡ true
unfolding live update_confirmed confirm_row confirmable
live-confirm now [] x y h = h
live-confirm now (r ∷ t) x y h = ground (arith, live-confirm now t x y)

-- The claim of an answer is the only one that may be new.
abbrev pub OnlyWon : Table → Claimed × Table → Type 0
OnlyWon t (won o, u) = (x : String) → x ≢ o.id → live u x ≡ true → live t x ≡ true
OnlyWon t (c, u) = (x : String) → live u x ≡ true → live t x ≡ true

insert_result-OnlyWon :
    (turn : Turn) (c : Picked) (t : Table) (i : Insertion)
    → insert (held_row turn c) t ≡ i
    → OnlyWon t (insert_result turn c t i)
unfolding insert_result occupation
insert_result-OnlyWon turn c t (inserted u) e = λ x ne h.
    unfold live held_row in ground (arith, insert-eq (held_row turn c) t e, eq_iff turn.new_id x)
insert_result-OnlyWon turn c t exclusion_violation e = λ x h. h
insert_result-OnlyWon turn c t rejected e = λ x h. h

insert_picked-OnlyWon :
    (turn : Turn) (o : Option Picked) (t : Table) → OnlyWon t (insert_picked turn o t)
unfolding insert_picked
insert_picked-OnlyWon turn none t = λ x h. h
insert_picked-OnlyWon turn (some c) t = insert_result-OnlyWon turn c t _ refl

module _ (pick : Table → Option Picked) where
  claim_once-OnlyWon : (turn : Turn) (t : Table) → Quiet turn → OnlyWon t (claim_once pick turn t)
  unfolding claim_once
  claim_once-OnlyWon turn t q =
      rw (q.before t, q.between t, q.claim_runs) (insert_picked-OnlyWon turn (pick t) t)

  -- The same of the whole loop.
  abbrev pub LoopOnlyWon : Table → Result ReserveError Occupation × Table → Type 0
  LoopOnlyWon t (ok o, u) = (x : String) → x ≢ o.id → live u x ≡ true → live t x ≡ true
  LoopOnlyWon t (err e, u) = (x : String) → live u x ≡ true → live t x ≡ true

  settle-LoopOnlyWon :
      (c : Claimed) (t u : Table) (again : Result ReserveError Occupation × Table)
      → OnlyWon t (c, u)
      → (((x : String) → live u x ≡ true → live t x ≡ true) → LoopOnlyWon t again)
      → LoopOnlyWon t (settle c u again)
  settle-LoopOnlyWon (won o) t u again h rest = h
  settle-LoopOnlyWon failed t u again h rest = h
  settle-LoopOnlyWon empty t u again h rest = rest h
  settle-LoopOnlyWon collision t u again h rest = rest h

  LoopOnlyWon-trans :
      (t u : Table) (r : Result ReserveError Occupation × Table)
      → ((x : String) → live u x ≡ true → live t x ≡ true)
      → LoopOnlyWon u r
      → LoopOnlyWon t r
  LoopOnlyWon-trans t u (ok o, w) h k = λ x ne l. h x (k x ne l)
  LoopOnlyWon-trans t u (err e, w) h k = λ x l. h x (k x l)

  -- Undisturbed, the loop adds no live claim but the one that it reports.
  pub claim_loop-LoopOnlyWon :
      (n : ℕ) (turns : ℕ → Turn) (t : Table)
      → ((k : ℕ) → Quiet (turns k))
      → LoopOnlyWon t (claim_loop pick n turns t)
  unfolding claim_loop
  claim_loop-LoopOnlyWon zero turns t q = λ x h. h
  claim_loop-LoopOnlyWon (suc n) turns t q =
      let turn = turns n in
      let (c, u) = claim_once pick turn t in
      let reaped = delete_expired turn.reap_now u in
      settle-LoopOnlyWon c t u _ (claim_once-OnlyWon turn t (q n)) λ h.
        simp ((q n).after u, (q n).reap_runs)
          (LoopOnlyWon-trans t reaped (claim_loop pick n turns reaped)
            (λ x l. h x (live-delete_expired turn.reap_now u x l))
            (claim_loop-LoopOnlyWon n turns reaped q))

-- A turn in which nothing else happens.
abbrev pub quiet_turn : ℕ → String → Turn
quiet_turn now id = record {
  claim_now = now;
  new_id = id;
  before = λ t. t;
  between = λ t. t;
  claim_fails = false;
  after = λ t. t;
  reap_now = now;
  reap_fails = false;
}

pub quiet_turn-Quiet : (now : ℕ) (id : String) → Quiet (quiet_turn now id)
quiet_turn-Quiet now id = record {
  before = λ t. refl;
  between = λ t. refl;
  after = λ t. refl;
  claim_runs = refl;
  reap_runs = refl;
}
