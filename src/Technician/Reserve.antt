-- ===== src/Technician/Reserve.antt =====
-- What a Reserve of the technician allocator guarantees.
use unified_service_schedule.Common.{
  ℕ, ◌+◌, ◌*◌, ◌<◌, ◌≤◌, ◌≡◌, ◌≢◌, refl, Option, none, some, eq_iff, ltb, ltb→lt, lt→ltb, Result,
  ok, err, In, arith, Bool-cases, inl, inr,
}
use unified_service_schedule.Occupancy.{OccRow, Table, held, minute, hold_ttl, delete_expired}
use unified_service_schedule.Occupancy.Steps.{Reach, start}
use unified_service_schedule.Occupancy.Claim.{Occupation, Turn, ReserveError, held_row, occupation}
use unified_service_schedule.Occupancy.Claim.Sound.{
  Honest, Snapshot, claim_loop-Reach, claim_loop-Won,
}
use unified_service_schedule.Occupancy.Claim.Complete.{Quiet, IsNew, PicksFree, claim_loop_complete}
use unified_service_schedule.Technician.{
  Technician, Skill, Roster, Postgres, ReserveParams, end_of, pick, reserve,
}
use unified_service_schedule.Technician.Query.{Fits, pick-PickedFits, Fits-pick}
use unified_service_schedule.Technician.Server.{
  ReserveRequest, ReserveResponse, params, reply, reserve_at, handle_reserve,
}

module _ (pg : Postgres) (ro : Roster) where
  reply-table : (r : Result ReserveError Occupation × Table) → (reply r).1 ≡ r.1
  unfolding reply
  reply-table (ok o, t) = refl
  reply-table (err e, t) = refl

  reserve_at-Reach :
      (now : ℕ) (turns : ℕ → Turn) (req : ReserveRequest) (s e : Option ℕ) (t : Table)
      → ((k : ℕ) → Honest (turns k))
      → Reach t (reserve_at pg ro now turns req s e t).1
  unfolding reserve_at reserve
  reserve_at-Reach now turns req none e t h = start
  reserve_at-Reach now turns req (some s) none t h = start
  reserve_at-Reach now turns req (some s) (some e) t h = elim (Bool-cases (ltb now s)) [
    | inl k ↦ rw (k, reply-table) (claim_loop-Reach (pick pg ro (params req s e)) 3 turns t h)
    | inr k ↦ rw k start
  ]

  -- Reserve changes the table only by the statements of `Step`, whatever the request, the faults
  -- and the other servers' statements in between.
  pub handle_reserve-Reach :
      (now : ℕ) (turns : ℕ → Turn) (req : ReserveRequest) (t : Table)
      → ((k : ℕ) → Honest (turns k))
      → Reach t (handle_reserve pg ro now turns req t).1
  unfolding handle_reserve
  handle_reserve-Reach now turns req t h =
      let untouched : Reach t t = start in
      ground (arith, untouched, reserve_at-Reach now turns req req.start req.latest_end t h)

  -- The hold that a Reserve reports: who was picked, on which of the tables that the attempts from
  -- `t` on read, and the row that stands in `u`.
  pub record Reserved (now : ℕ) (turns : ℕ → Turn) (req : ReserveRequest) (t : Table)
      (resp : ReserveResponse) (u : Table) : Type 0 where
    pub start_at : ℕ
    pub latest_end : ℕ
    pub turn : ℕ
    pub seen : Table
    pub technician : Technician
    pub skill : Skill
    pub row : OccRow
    pub starts : req.start ≡ some start_at
    pub ends : req.latest_end ≡ some latest_end
    pub future : now < start_at
    pub read : Snapshot (pick pg ro (params req start_at latest_end)) turns 3 t turn seen
    pub fits : Fits pg ro (params req start_at latest_end) seen technician skill
    pub chosen : resp.technician_id ≡ technician.id
    pub duration : resp.end ≡ start_at + skill.duration_minutes * minute
    pub stored : In row u
    pub id : row.id ≡ resp.occupation_id
    pub generated : (turns turn).new_id ≡ row.id
    pub resource : row.resource_id ≡ technician.id
    pub from : row.start_at ≡ start_at
    pub until : row.end_at ≡ resp.end
    pub status : row.status ≡ held
    pub expires : row.hold_expires_at ≡ some ((turns turn).claim_now + hold_ttl)

  reply-ok :
      (r : Result ReserveError Occupation × Table) (resp : ReserveResponse)
      → (reply r).0 ≡ ok resp
      → (o : Occupation) × (r.0 ≡ ok o)
        × (resp ≡ record { occupation_id = o.id; technician_id = o.resource_id; end = o.end })
  unfolding reply
  reply-ok (ok o, t) resp h = (o, refl, ground arith)
  reply-ok (err e, t) resp h = cc

  reserve_at-Reserved :
      (now : ℕ) (turns : ℕ → Turn) (req : ReserveRequest) (s e : ℕ) (t : Table)
      (resp : ReserveResponse)
      → req.start ≡ some s
      → req.latest_end ≡ some e
      → now < s
      → (reply (reserve pg ro (params req s e) turns t)).0 ≡ ok resp
      → Reserved now turns req t resp (reply (reserve pg ro (params req s e) turns t)).1
  unfolding reserve end_of
  reserve_at-Reserved now turns req s e t resp es ee future h =
      let p = params req s e in
      let (o, won, same) = reply-ok (reserve pg ro p turns t) resp h in
      let w = claim_loop-Won (pick pg ro p) 3 turns t o won in
      let f = pick-PickedFits pg ro p w.seen w.candidate w.picked in
      unfold occupation held_row params in
      record {
        start_at = s;
        latest_end = e;
        turn = w.turn;
        seen = w.seen;
        technician = f.technician;
        skill = f.skill;
        row = held_row (turns w.turn) w.candidate;
        starts = es;
        ends = ee;
        future = future;
        read = w.read;
        fits = f.fits;
        chosen = ground (arith, same, w.reported, f.resource);
        duration = ground (arith, same, w.reported, f.end_at);
        stored = rw reply-table w.stored;
        id = ground (arith, same, w.reported);
        generated = refl;
        resource = f.resource;
        from = f.start_at;
        until = ground (arith, same, w.reported);
        status = refl;
        expires = refl;
      }

  reserve_at_sound :
      (now : ℕ) (turns : ℕ → Turn) (req : ReserveRequest) (s e : Option ℕ) (t : Table)
      (resp : ReserveResponse)
      → req.start ≡ s
      → req.latest_end ≡ e
      → (reserve_at pg ro now turns req s e t).0 ≡ ok resp
      → Reserved now turns req t resp (reserve_at pg ro now turns req s e t).1
  unfolding reserve_at
  reserve_at_sound now turns req none e t resp es ee h = cc
  reserve_at_sound now turns req (some s) none t resp es ee h = cc
  reserve_at_sound now turns req (some s) (some e) t resp es ee h = elim (Bool-cases (ltb now s)) [
    | inl k ↦ ground (arith, k, reserve_at-Reserved now turns req s e t resp es ee (ltb→lt now s k))
    | inr k ↦ ground (arith, k)
  ]

  -- A Reserve that succeeds has picked a technician who fits the request by the table that one of
  -- its three attempts read, where no live claim of the technician meets the interval, and holds
  -- exactly the start asked for and the technician's own duration, until 120 seconds after the
  -- claim, whatever the other servers do meanwhile.
  pub handle_reserve_sound :
      (now : ℕ) (turns : ℕ → Turn) (req : ReserveRequest) (t : Table) (resp : ReserveResponse)
      → (handle_reserve pg ro now turns req t).0 ≡ ok resp
      → Reserved now turns req t resp (handle_reserve pg ro now turns req t).1
  unfolding handle_reserve
  handle_reserve_sound now turns req t resp h =
      ground (arith, reserve_at_sound now turns req req.start req.latest_end t resp refl refl)

  -- CHECK (duration_minutes >= 1)
  abbrev pub DurationsPositive : Type 0
  DurationsPositive = (sk : Skill) → In sk ro.skills → 1 ≤ sk.duration_minutes

  pick-PicksFree : (p : ReserveParams) → DurationsPositive → PicksFree (pick pg ro p)
  unfolding end_of
  pick-PicksFree p positive = record {
    proper = λ t c e.
        let f = pick-PickedFits pg ro p t c e in
        let d = positive f.skill f.fits.skill in omega (arith, f.start_at, f.end_at, d);
    free = λ t c e.
        let f = pick-PickedFits pg ro p t c e in rw (f.resource, f.start_at, f.end_at) f.fits.free;
  }

  -- On a server that nobody disturbs, whose skills take at least a minute and whose generated ids
  -- are new, a Reserve of a future start for which some technician fits, once the expired holds
  -- are deleted, succeeds.
  pub handle_reserve_complete :
      (now : ℕ) (turns : ℕ → Turn) (req : ReserveRequest) (t : Table) (s e : ℕ) (tech : Technician)
      (sk : Skill)
      → DurationsPositive
      → ((k : ℕ) → Quiet (turns k))
      → ((k : ℕ) → IsNew (turns k) t)
      → req.dealership_id ≢ ""
      → req.service_type_id ≢ ""
      → req.start ≡ some s
      → req.latest_end ≡ some e
      → now < s
      → Fits pg ro (params req s e) (delete_expired (turns 2).reap_now t) tech sk
      → (resp : ReserveResponse) × ((handle_reserve pg ro now turns req t).0 ≡ ok resp)
  unfolding handle_reserve reserve_at reserve reply
  handle_reserve_complete now turns req t s e tech sk positive quiet new d v es ee future fits =
      let p = params req s e in
      let (c, picked) = Fits-pick pg ro p (delete_expired (turns 2).reap_now t) tech sk fits in
      let (o, won) =
        claim_loop_complete (pick pg ro p) (pick-PicksFree p positive) turns t c quiet new picked in
      (
        record { occupation_id = o.id; technician_id = o.resource_id; end = o.end },
        ground (
          arith,
          won,
          eq_iff req.dealership_id "",
          eq_iff req.service_type_id "",
          lt→ltb now s future,
        ),
      )
