-- ===== src/Occupancy/Claim/Complete.antt =====
-- The claim loop when nobody interferes.
use unified_service_schedule.Common.{
  ℕ, suc, ◌<◌, ◌≡◌, refl, Bool, false, Option, none, some, [], ◌∷◌, select, arith, ok, any, lt→ltb,
  ◌==◌, inl, inr, Option-cases,
}
use unified_service_schedule.Occupancy.{OccRow, Table, insert, delete_expired, is_busy}
use unified_service_schedule.Occupancy.Claim.{
  Picked, Occupation, Turn, won, empty, held_row, occupation, insert_result, insert_picked,
  claim_once, claim_loop,
}

-- No other transaction runs and no statement fails.
pub record Quiet (turn : Turn) : Type 0 where
  pub before : (t : Table) → turn.before t ≡ t
  pub between : (t : Table) → turn.between t ≡ t
  pub after : (t : Table) → turn.after t ≡ t
  pub claim_runs : turn.claim_fails ≡ false
  pub reap_runs : turn.reap_fails ≡ false

-- The generated id is not in use.
abbrev pub IsNew : Turn → Table → Type 0
IsNew turn t = any (λ s. s.id == turn.new_id) t ≡ false

-- The query picks only a proper interval in which the resource is free.
pub record PicksFree (pick : Table → Option Picked) : Type 0 where
  pub proper : (t : Table) (c : Picked) → pick t ≡ some c → c.start_at < c.end_at
  pub free :
      (t : Table) (c : Picked)
      → pick t ≡ some c
      → is_busy c.resource_id c.start_at c.end_at t ≡ false

any-select : (p q : OccRow → Bool) (t : Table) → any q t ≡ false → any q (select p t) ≡ false
any-select p q [] h = refl
any-select p q (r ∷ t) h = ground (arith, any-select p q t)

IsNew-delete_expired :
    (turn : Turn) (now : ℕ) (t : Table) → IsNew turn t → IsNew turn (delete_expired now t)
unfolding delete_expired
IsNew-delete_expired turn now t h = any-select _ _ t h

module _ (pick : Table → Option Picked) (free : PicksFree pick) where
  claim_once-none :
      (turn : Turn) (t : Table) → Quiet turn → pick t ≡ none → claim_once pick turn t ≡ (empty, t)
  unfolding claim_once insert_picked
  claim_once-none turn t q e = rw (q.before t, q.between t, q.claim_runs, e) refl

  claim_once-some :
      (turn : Turn) (t : Table) (c : Picked)
      → Quiet turn
      → IsNew turn t
      → pick t ≡ some c
      → claim_once pick turn t ≡ (won (occupation turn c), held_row turn c ∷ t)
  unfolding claim_once insert_picked insert_result insert held_row
  claim_once-some turn t c q n e =
      rw
        (
          q.before t,
          q.between t,
          q.claim_runs,
          e,
          lt→ltb _ _ (free.proper t c e),
          n,
          free.free t c e,
        )
        refl

  -- An attempt that finds a candidate ends the loop.
  claim_loop-some :
      (n : ℕ) (turns : ℕ → Turn) (t : Table) (c : Picked)
      → Quiet (turns n)
      → IsNew (turns n) t
      → pick t ≡ some c
      → (claim_loop pick (suc n) turns t).0 ≡ ok (occupation (turns n) c)
  unfolding claim_loop
  claim_loop-some n turns t c q new e = ground (arith, claim_once-some (turns n) t c q new e)

  -- One that finds none deletes the expired holds and goes on.
  claim_loop-none :
      (n : ℕ) (turns : ℕ → Turn) (t : Table)
      → Quiet (turns n)
      → pick t ≡ none
      → claim_loop pick (suc n) turns t
        ≡ claim_loop pick n turns (delete_expired (turns n).reap_now t)
  unfolding claim_loop
  claim_loop-none n turns t q e =
      ground (arith, claim_once-none (turns n) t q e, q.reap_runs, q.after t)

  pub claim_loop_complete :
      (turns : ℕ → Turn) (t : Table) (c : Picked)
      → ((k : ℕ) → Quiet (turns k))
      → ((k : ℕ) → IsNew (turns k) t)
      → pick (delete_expired (turns 2).reap_now t) ≡ some c
      → (o : Occupation) × ((claim_loop pick 3 turns t).0 ≡ ok o)
  claim_loop_complete turns t c q new e = elim (Option-cases (pick t)) [
    | inl none_yet ↦ (
      occupation (turns 1) c,
      rw (claim_loop-none 2 turns t (q 2) none_yet)
          (claim_loop-some 1 turns _ c (q 1) (IsNew-delete_expired (turns 1) _ t (new 1)) e),
    )
    | inr (d, found) ↦ (occupation (turns 2) d, claim_loop-some 2 turns t d (q 2) (new 2) found)
  ]
