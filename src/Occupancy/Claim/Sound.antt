-- ===== src/Occupancy/Claim/Sound.antt =====
-- What the claim loop may do to the table, and what a claim that it reports has done.
use unified_service_schedule.Common.{
  ℕ, zero, suc, ◌≡◌, refl, Option, none, some, arith, ok, In, here,
}
use unified_service_schedule.Occupancy.{
  Table, Insertion, inserted, exclusion_violation, rejected, insert, delete_expired,
}
use unified_service_schedule.Occupancy.Valid.{insert-eq}
use unified_service_schedule.Occupancy.Steps.{Reach, Reach-trans, start, next, claim, reap}
use unified_service_schedule.Occupancy.Claim.{
  Picked, Occupation, Turn, won, held_row, occupation, insert_result, insert_picked, claim_once,
  claim_loop,
}

-- The other transactions of the turn run the servers' statements.
pub record Honest (turn : Turn) : Type 0 where
  pub before : (t : Table) → Reach t (turn.before t)
  pub between : (t : Table) → Reach t (turn.between t)
  pub after : (t : Table) → Reach t (turn.after t)

insert_result-Reach :
    (turn : Turn) (c : Picked) (t : Table) (i : Insertion)
    → insert (held_row turn c) t ≡ i
    → Reach t (insert_result turn c t i).1
unfolding insert_result held_row
insert_result-Reach turn c t (inserted u) e = next start (claim (held_row turn c) refl e)
insert_result-Reach turn c t exclusion_violation e = start
insert_result-Reach turn c t rejected e = start

insert_picked-Reach :
    (turn : Turn) (o : Option Picked) (t : Table) → Reach t (insert_picked turn o t).1
unfolding insert_picked
insert_picked-Reach turn none t = start
insert_picked-Reach turn (some c) t = insert_result-Reach turn c t _ refl

module _ (pick : Table → Option Picked) where
  claim_once-Reach : (turn : Turn) (t : Table) → Honest turn → Reach t (claim_once pick turn t).1
  unfolding claim_once
  claim_once-Reach turn t h =
      let seen = turn.before t in
      let came = Reach-trans (h.before t) (h.between seen) in
      ground
        (arith, came, Reach-trans came (insert_picked-Reach turn (pick seen) (turn.between seen)))

  -- The loop changes the table by the servers' statements only.
  pub claim_loop-Reach :
      (n : ℕ) (turns : ℕ → Turn) (t : Table)
      → ((k : ℕ) → Honest (turns k))
      → Reach t (claim_loop pick n turns t).1
  unfolding claim_loop
  claim_loop-Reach zero turns t h = start
  claim_loop-Reach (suc n) turns t h =
      let turn = turns n in
      let u = (claim_once pick turn t).1 in
      let claimed = claim_once-Reach turn t (h n) in
      let w = turn.after u in
      let later = Reach-trans claimed ((h n).after u) in
      let reaped = next later (reap turn.reap_now) in
      ground (
        arith,
        claimed,
        later,
        Reach-trans reaped (claim_loop-Reach n turns (delete_expired turn.reap_now w) h),
      )

  -- The table that a round of the loop reads, by the rounds that are left and the turn: the first
  -- round that is left reads what its turn finds, and the later ones go on from what it left, less
  -- the expired holds.
  pub data Snapshot (turns : ℕ → Turn) : ℕ → Table → ℕ → Table → Type 0 where
    first : (n : ℕ) (t : Table) → Snapshot turns (suc n) t n ((turns n).before t)
    later :
        (n : ℕ) (t : Table) (k : ℕ) (seen : Table)
        → Snapshot turns n
            (delete_expired (turns n).reap_now ((turns n).after (claim_once pick (turns n) t).1))
            k
            seen
        → Snapshot turns (suc n) t k seen

  -- The occupation is the row that some turn inserted, for a candidate that the query picked on a
  -- table that the turn read.
  pub record Won (turns : ℕ → Turn) (reads : ℕ → Table → Type 0) (o : Occupation) (u : Table)
      : Type 0 where
    pub turn : ℕ
    pub seen : Table
    pub candidate : Picked
    pub read : reads turn seen
    pub picked : pick seen ≡ some candidate
    pub reported : o ≡ occupation (turns turn) candidate
    pub stored : In (held_row (turns turn) candidate) u

  insert_result-stored :
      (turn : Turn) (c : Picked) (t : Table) (i : Insertion) (o : Occupation)
      → insert (held_row turn c) t ≡ i
      → (insert_result turn c t i).0 ≡ won o
      → (o ≡ occupation turn c) × In (held_row turn c) (insert_result turn c t i).1
  unfolding insert_result
  insert_result-stored turn c t (inserted u) o e h =
      (ground arith, rw (insert-eq (held_row turn c) t e) (here refl))
  insert_result-stored turn c t exclusion_violation o e h = cc
  insert_result-stored turn c t rejected o e h = cc

  insert_picked-Won :
      (turns : ℕ → Turn) (reads : ℕ → Table → Type 0) (k : ℕ) (seen : Table) (p : Option Picked)
      (t : Table) (o : Occupation)
      → reads k seen
      → pick seen ≡ p
      → (insert_picked (turns k) p t).0 ≡ won o
      → Won turns reads o (insert_picked (turns k) p t).1
  unfolding insert_picked
  insert_picked-Won turns reads k seen none t o read e h = cc
  insert_picked-Won turns reads k seen (some c) t o read e h =
      let (reported, stored) = insert_result-stored (turns k) c t _ o refl h in
      record {
        turn = k;
        seen = seen;
        candidate = c;
        read = read;
        picked = e;
        reported = reported;
        stored = stored;
      }

  claim_once-Won :
      (turns : ℕ → Turn) (reads : ℕ → Table → Type 0) (k : ℕ) (t : Table) (o : Occupation)
      → reads k ((turns k).before t)
      → (claim_once pick (turns k) t).0 ≡ won o
      → Won turns reads o (claim_once pick (turns k) t).1
  unfolding claim_once
  claim_once-Won turns reads k t o read h =
      let seen = (turns k).before t in
      ground (
        arith,
        insert_picked-Won turns reads k seen (pick seen) ((turns k).between seen) o read refl,
      )

  rounds-Won :
      (n : ℕ) (turns : ℕ → Turn) (reads : ℕ → Table → Type 0) (t : Table) (o : Occupation)
      → ((k : ℕ) (seen : Table) → Snapshot turns n t k seen → reads k seen)
      → (claim_loop pick n turns t).0 ≡ ok o
      → Won turns reads o (claim_loop pick n turns t).1
  unfolding claim_loop
  rounds-Won zero turns reads t o are h = cc
  rounds-Won (suc n) turns reads t o are h =
      let turn = turns n in
      let u = (claim_once pick turn t).1 in
      let next_table = delete_expired turn.reap_now (turn.after u) in
      let at_first = are n (turn.before t) (first n t) in
      ground (
        arith,
        claim_once-Won turns reads n t o at_first,
        rounds-Won n turns reads next_table o (λ k seen s. are k seen (later n t k seen s)),
      )

  pub claim_loop-Won :
      (n : ℕ) (turns : ℕ → Turn) (t : Table) (o : Occupation)
      → (claim_loop pick n turns t).0 ≡ ok o
      → Won turns (Snapshot turns n t) o (claim_loop pick n turns t).1
  claim_loop-Won n turns t o h = rounds-Won n turns (Snapshot turns n t) t o (λ k seen s. s) h
