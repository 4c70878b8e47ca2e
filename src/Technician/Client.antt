-- ===== src/Technician/Client.antt =====
-- The technician server as the component that the booking service calls, while no other caller
-- disturbs it and its database answers, in the terms of Booking.Laws.
use unified_service_schedule.Common.{
  ℕ, suc, String, ◌≡◌, ◌≢◌, refl, ◌∙◌, true, false, ◌||◌, Option, none, some, ◌==◌, eq_iff, arith,
  ltb, Result, ok, err, Bool-cases, inl, inr,
}
use unified_service_schedule.Rpc.{Code}
use unified_service_schedule.Occupancy.{Table}
use unified_service_schedule.Occupancy.Claim.{Picked, Occupation, Turn, ReserveError, claim_loop}
use unified_service_schedule.Occupancy.Claim.Complete.{Quiet}
use unified_service_schedule.Occupancy.Claim.Live.{
  live, live-release_self, live-release, live-confirm, claim_loop-LoopOnlyWon, LoopOnlyWon,
  quiet_turn, quiet_turn-Quiet,
}
use unified_service_schedule.Occupancy.Handlers.{confirm, release}
use unified_service_schedule.Technician.{Postgres, Roster, pick, reserve, end_of}
use unified_service_schedule.Technician.Server.{
  ReserveRequest, ReserveResponse, params, reply, reserve_at, handle_reserve,
}
use unified_service_schedule.Technician.Reserve.{handle_reserve_sound, DurationsPositive}
use unified_service_schedule.Booking.Clients.{TechClient}
use unified_service_schedule.Booking.Laws.{ConfirmingAccounts, EndsInTime}

-- The server's table, its clock, and how many ids it has generated.
pub record Db : Type 0 where
  pub table : Table
  pub clock : ℕ
  pub made : ℕ

-- `gen_uuid` is the sequence of the ids that gen_random_uuid() gives.
module _ (pg : Postgres) (ro : Roster) (gen_uuid : ℕ → String) where
  turns_of : Db → ℕ → Turn
  turns_of db k = quiet_turn db.clock (gen_uuid db.made)

  unfoldable pub client : TechClient Db
  unfolding turns_of
  client = record {
    reserve = λ q db.
        let (r, t) = handle_reserve pg ro db.clock (turns_of db) q db.table in
        (r, record { table = t; clock = db.clock; made = suc db.made });
    confirm = λ id db.
        let (r, t) = confirm false db.clock id db.table in
        (r, record { table = t; clock = db.clock; made = db.made });
    release = λ id db.
        let (r, t) = release false id db.table in
        (r, record { table = t; clock = db.clock; made = db.made });
  }

  -- The answer's claim is the only one that may be new.
  abbrev AnswerOnlyWon : Table → Result Code ReserveResponse × Table → Type 0
  AnswerOnlyWon t (ok r, u) = (x : String) → x ≢ r.occupation_id → live u x ≡ true → live t x ≡ true
  AnswerOnlyWon t (err c, u) = (x : String) → live u x ≡ true → live t x ≡ true

  reply-AnswerOnlyWon :
      (pick : Table → Option Picked) (t : Table) (r : Result ReserveError Occupation × Table)
      → LoopOnlyWon pick t r
      → AnswerOnlyWon t (reply r)
  unfolding reply
  reply-AnswerOnlyWon pick t (ok o, u) h = h
  reply-AnswerOnlyWon pick t (err e, u) h = h

  reserve_at-AnswerOnlyWon :
      (now : ℕ) (turns : ℕ → Turn) (req : ReserveRequest) (s e : Option ℕ) (t : Table)
      → ((k : ℕ) → Quiet (turns k))
      → AnswerOnlyWon t (reserve_at pg ro now turns req s e t)
  unfolding reserve_at reserve
  reserve_at-AnswerOnlyWon now turns req none e t q = λ x h. h
  reserve_at-AnswerOnlyWon now turns req (some s) none t q = λ x h. h
  reserve_at-AnswerOnlyWon now turns req (some s) (some e) t q = elim (Bool-cases (ltb now s)) [
    | inl k ↦
        let p = pick pg ro (params req s e) in
        rw k
          (reply-AnswerOnlyWon p t (claim_loop p 3 turns t) (claim_loop-LoopOnlyWon p 3 turns t q))
    | inr k ↦ rw k (λ x h. h)
  ]

  handle_reserve-AnswerOnlyWon :
      (now : ℕ) (turns : ℕ → Turn) (req : ReserveRequest) (t : Table)
      → ((k : ℕ) → Quiet (turns k))
      → AnswerOnlyWon t (handle_reserve pg ro now turns req t)
  unfolding handle_reserve
  handle_reserve-AnswerOnlyWon now turns req t q =
      elim (Bool-cases (req.dealership_id == "" || req.service_type_id == "")) [
        | inl k ↦ rw k (λ x h. h)
        | inr k ↦ rw k (reserve_at-AnswerOnlyWon now turns req req.start req.latest_end t q)
      ]

  answer-refused :
      (t : Table) (r : Result Code ReserveResponse × Table) (c : Code) (x : String)
      → AnswerOnlyWon t r
      → r.0 ≡ err c
      → live r.1 x ≡ true
      → live t x ≡ true
  answer-refused t (ok a, u) c x h e l = cc
  answer-refused t (err d, u) c x h e l = h x l

  answer-granted :
      (t : Table) (r : Result Code ReserveResponse × Table) (a : ReserveResponse) (x : String)
      → AnswerOnlyWon t r
      → r.0 ≡ ok a
      → x ≢ a.occupation_id
      → live r.1 x ≡ true
      → live t x ≡ true
  answer-granted t (ok a, u) a' x h e ne l = h x (λ p. ne (p ∙ ground arith)) l
  answer-granted t (err d, u) a' x h e ne l = cc

  -- A granted occupation has an id that the database generated.
  reserve-named :
      (now : ℕ) (turns : ℕ → Turn) (req : ReserveRequest) (t : Table) (resp : ReserveResponse)
      → ((k : ℕ) → (turns k).new_id ≢ "")
      → (handle_reserve pg ro now turns req t).0 ≡ ok resp
      → resp.occupation_id ≢ ""
  reserve-named now turns req t resp named h =
      let r = handle_reserve_sound pg ro now turns req t resp h in
      λ p. named r.turn (r.generated ∙ r.id ∙ p)

  released : (id : String) (t : Table) → id ≢ "" → (release false id t).0 ≡ ok tt
  unfolding release
  released id t ne = ground (arith, eq_iff id "")

  dropped : (id : String) (t : Table) → id ≢ "" → live (release false id t).1 id ≡ false
  unfolding release
  dropped id t ne = ground (arith, eq_iff id "", live-release_self t id)

  others : (x y : String) (t : Table) → live (release false x t).1 y ≡ true → live t y ≡ true
  unfolding release
  others x y t h = ground (arith, live-release t x y)

  confirmed_live :
      (now : ℕ) (x y : String) (t : Table)
      → live (confirm false now x t).1 y ≡ true
      → live t y ≡ true
  unfolding confirm
  confirmed_live now x y t h = ground (arith, live-confirm now t x y)

  -- If the generated ids are not empty, the undisturbed technician server keeps account of the ids of
  -- its table's live claims: a refused Reserve adds none, a granted one at most its own, which has a
  -- name, Confirm adds none, and a Release of an id answers, drops the claim of the id and adds none.
  pub technician_keeps_accounts :
      ((n : ℕ) → gen_uuid n ≢ "")
      → (laws : ConfirmingAccounts client.reserve client.confirm client.release
          (λ (r : ReserveResponse). r.occupation_id))
        × ((db : Db) (x : String) → laws.reliable.live db x ≡ live db.table x)
  unfolding client turns_of
  technician_keeps_accounts named = (
    record {
      reliable = record {
        accounts = record {
          live = λ db. live db.table;
          refused = λ q db c x e l.
              answer-refused db.table (handle_reserve pg ro db.clock (turns_of db) q db.table) c x
                (handle_reserve-AnswerOnlyWon db.clock (turns_of db) q db.table
                  (λ k. quiet_turn-Quiet db.clock (gen_uuid db.made)))
                e l;
          granted = λ q db r x e ne l.
              answer-granted db.table (handle_reserve pg ro db.clock (turns_of db) q db.table) r x
                (handle_reserve-AnswerOnlyWon db.clock (turns_of db) q db.table
                  (λ k. quiet_turn-Quiet db.clock (gen_uuid db.made)))
                e ne l;
          named =
              λ q db r e. reserve-named db.clock (turns_of db) q db.table r (λ k. named db.made) e;
          dropped = λ db x ne e. dropped x db.table ne;
          others = λ db x y l. others x y db.table l;
        };
        answers = λ db x ne. released x db.table ne;
      };
      confirms = λ db x y l. confirmed_live db.clock x y db.table l;
    },
    (λ db x. refl),
  )

  -- If every skill takes at least a minute, a technician that the undisturbed server grants ends
  -- after the start that was asked for, and by the latest end.
  pub client-EndsInTime : DurationsPositive pg ro → EndsInTime client
  unfolding client turns_of params end_of
  client-EndsInTime positive = record {
    in_time = λ q db resp s e h qs qe.
        let r = handle_reserve_sound pg ro db.clock (turns_of db) q db.table resp h in
        let d = positive r.skill r.fits.skill in
        let starts : r.start_at ≡ s = ground (arith, r.starts, qs) in
        let ends : r.latest_end ≡ e = ground (arith, r.ends, qe) in
        let by = r.fits.closes in omega (arith, starts, ends, d, r.duration, by);
  }
