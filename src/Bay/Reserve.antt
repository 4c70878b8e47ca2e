-- ===== src/Bay/Reserve.antt =====
-- What a Reserve of the bay allocator guarantees.
use unified_service_schedule.Common.{
  ℕ, ◌+◌, ◌<◌, String, ◌≡◌, ◌≢◌, refl, ◌&&◌, Option, none, some, List, eq_iff, ltb, ltb→lt, lt→ltb,
  Result, ok, err, In, arith, Bool-cases, inl, inr,
}
use unified_service_schedule.Occupancy.{OccRow, Table, held, hold_ttl, delete_expired}
use unified_service_schedule.Occupancy.Steps.{Reach, start}
use unified_service_schedule.Occupancy.Claim.{
  Occupation, Turn, ReserveError, held_row, occupation, claim_loop,
}
use unified_service_schedule.Occupancy.Claim.Sound.{
  Honest, Snapshot, claim_loop-Reach, claim_loop-Won,
}
use unified_service_schedule.Occupancy.Claim.Complete.{Quiet, IsNew, PicksFree, claim_loop_complete}
use unified_service_schedule.Bay.{ServiceBay, ReserveParams, picked, pick, reserve}
use unified_service_schedule.Bay.Server.{
  ReserveRequest, ReserveResponse, params, reply, reserve_at, handle_reserve,
}
use unified_service_schedule.Bay.Query.{Fits, pick-PickedFits, Fits-pick}

module _ (hashtext : String → ℕ) (bays : List ServiceBay) where
  reply-table : (r : Result ReserveError Occupation × Table) → (reply r).1 ≡ r.1
  unfolding reply
  reply-table (ok o, t) = refl
  reply-table (err e, t) = refl

  reserve_at-Reach :
      (now : ℕ) (turns : ℕ → Turn) (req : ReserveRequest) (s e : Option ℕ) (t : Table)
      → ((k : ℕ) → Honest (turns k))
      → Reach t (reserve_at hashtext bays now turns req s e t).1
  unfolding reserve_at reserve
  reserve_at-Reach now turns req none e t h = start
  reserve_at-Reach now turns req (some s) none t h = start
  reserve_at-Reach now turns req (some s) (some e) t h =
      let untouched : Reach t t = start in
      let looped = claim_loop-Reach (pick hashtext bays (params req s e)) 3 turns t h in
      elim (Bool-cases (ltb s e && ltb now s)) [
        | inl k ↦ ground (
          arith,
          looped,
          reply-table (claim_loop (pick hashtext bays (params req s e)) 3 turns t),
        )
        | inr k ↦ ground (arith, untouched)
      ]

  -- Reserve changes the table only by the statements of `Step`, whatever the request, the faults
  -- and the other servers' statements in between.
  pub handle_reserve-Reach :
      (now : ℕ) (turns : ℕ → Turn) (req : ReserveRequest) (t : Table)
      → ((k : ℕ) → Honest (turns k))
      → Reach t (handle_reserve hashtext bays now turns req t).1
  unfolding handle_reserve
  handle_reserve-Reach now turns req t h =
      let untouched : Reach t t = start in
      ground (arith, untouched, reserve_at-Reach now turns req req.start req.end t h)

  -- The hold that a Reserve reports: the bay picked, on which of the tables that the attempts from
  -- `t` on read, and the row that stands in `u`.
  pub record Reserved (now : ℕ) (turns : ℕ → Turn) (req : ReserveRequest) (t : Table)
      (resp : ReserveResponse) (u : Table) : Type 0 where
    pub start_at : ℕ
    pub end_at : ℕ
    pub turn : ℕ
    pub seen : Table
    pub bay : ServiceBay
    pub row : OccRow
    pub starts : req.start ≡ some start_at
    pub ends : req.end ≡ some end_at
    pub future : now < start_at
    pub proper : start_at < end_at
    pub read : Snapshot (pick hashtext bays (params req start_at end_at)) turns 3 t turn seen
    pub fits : Fits bays (params req start_at end_at) seen bay
    pub chosen : resp.service_bay_id ≡ bay.id
    pub stored : In row u
    pub id : row.id ≡ resp.occupation_id
    pub generated : (turns turn).new_id ≡ row.id
    pub resource : row.resource_id ≡ bay.id
    pub from : row.start_at ≡ start_at
    pub until : row.end_at ≡ end_at
    pub status : row.status ≡ held
    pub expires : row.hold_expires_at ≡ some ((turns turn).claim_now + hold_ttl)

  reply-ok :
      (r : Result ReserveError Occupation × Table) (resp : ReserveResponse)
      → (reply r).0 ≡ ok resp
      → (o : Occupation) × (r.0 ≡ ok o)
        × (resp ≡ record { occupation_id = o.id; service_bay_id = o.resource_id })
  unfolding reply
  reply-ok (ok o, t) resp h = (o, refl, ground arith)
  reply-ok (err e, t) resp h = cc

  reserve_at-Reserved :
      (now : ℕ) (turns : ℕ → Turn) (req : ReserveRequest) (s e : ℕ) (t : Table)
      (resp : ReserveResponse)
      → req.start ≡ some s
      → req.end ≡ some e
      → now < s
      → s < e
      → (reply (reserve hashtext bays (params req s e) turns t)).0 ≡ ok resp
      → Reserved now turns req t resp (reply (reserve hashtext bays (params req s e) turns t)).1
  unfolding reserve
  reserve_at-Reserved now turns req s e t resp es ee future proper h =
      let p = params req s e in
      let (o, won, same) = reply-ok (reserve hashtext bays p turns t) resp h in
      let w = claim_loop-Won (pick hashtext bays p) 3 turns t o won in
      let f = pick-PickedFits hashtext bays p w.seen w.candidate w.picked in
      unfold occupation held_row params in
      record {
        start_at = s;
        end_at = e;
        turn = w.turn;
        seen = w.seen;
        bay = f.bay;
        row = held_row (turns w.turn) w.candidate;
        starts = es;
        ends = ee;
        future = future;
        proper = proper;
        read = w.read;
        fits = f.fits;
        chosen = ground (arith, same, w.reported, f.resource);
        stored = rw reply-table w.stored;
        id = ground (arith, same, w.reported);
        generated = refl;
        resource = f.resource;
        from = f.start_at;
        until = f.end_at;
        status = refl;
        expires = refl;
      }

  reserve_at_sound :
      (now : ℕ) (turns : ℕ → Turn) (req : ReserveRequest) (s e : Option ℕ) (t : Table)
      (resp : ReserveResponse)
      → req.start ≡ s
      → req.end ≡ e
      → (reserve_at hashtext bays now turns req s e t).0 ≡ ok resp
      → Reserved now turns req t resp (reserve_at hashtext bays now turns req s e t).1
  unfolding reserve_at
  reserve_at_sound now turns req none e t resp es ee h = cc
  reserve_at_sound now turns req (some s) none t resp es ee h = cc
  reserve_at_sound now turns req (some s) (some e) t resp es ee h =
      ground (arith, reserve_at-Reserved now turns req s e t resp es ee, ltb→lt now s, ltb→lt s e)

  -- A Reserve that succeeds has picked an active bay of the dealership that was free for the
  -- interval in the table that one of its three attempts read, and holds exactly the interval asked
  -- for until 120 seconds after the claim, whatever the other servers do meanwhile.
  pub bay_reserve_sound :
      (now : ℕ) (turns : ℕ → Turn) (req : ReserveRequest) (t : Table) (resp : ReserveResponse)
      → (handle_reserve hashtext bays now turns req t).0 ≡ ok resp
      → Reserved now turns req t resp (handle_reserve hashtext bays now turns req t).1
  unfolding handle_reserve
  bay_reserve_sound now turns req t resp h =
      ground (arith, reserve_at_sound now turns req req.start req.end t resp refl refl)

  pick-PicksFree : (p : ReserveParams) → p.start < p.end → PicksFree (pick hashtext bays p)
  pick-PicksFree p proper = record {
    proper = λ t c e.
        let f = pick-PickedFits hashtext bays p t c e in omega (arith, f.start_at, f.end_at);
    free = λ t c e.
        let f = pick-PickedFits hashtext bays p t c e in
        rw (f.resource, f.start_at, f.end_at) f.fits.free;
  }

  -- On a server that nobody disturbs, and whose generated ids are new, a Reserve of a proper
  -- future interval for which some bay is free, once the expired holds are deleted, succeeds.
  pub bay_reserve_complete :
      (now : ℕ) (turns : ℕ → Turn) (req : ReserveRequest) (t : Table) (s e : ℕ) (b : ServiceBay)
      → ((k : ℕ) → Quiet (turns k))
      → ((k : ℕ) → IsNew (turns k) t)
      → req.dealership_id ≢ ""
      → req.start ≡ some s
      → req.end ≡ some e
      → now < s
      → s < e
      → Fits bays (params req s e) (delete_expired (turns 2).reap_now t) b
      → (resp : ReserveResponse) × ((handle_reserve hashtext bays now turns req t).0 ≡ ok resp)
  unfolding handle_reserve reserve_at reserve reply params
  bay_reserve_complete now turns req t s e b quiet new d es ee future proper fits =
      let p = params req s e in
      let (c, picked) = Fits-pick hashtext bays p (delete_expired (turns 2).reap_now t) b fits in
      let (o, won) =
        claim_loop_complete (pick hashtext bays p) (pick-PicksFree p proper) turns t c quiet new
          picked in
      (
        record { occupation_id = o.id; service_bay_id = o.resource_id },
        ground (arith, won, eq_iff req.dealership_id "", lt→ltb now s future, lt→ltb s e proper),
      )
