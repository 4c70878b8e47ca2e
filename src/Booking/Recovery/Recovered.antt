-- ===== src/Booking/Recovery/Recovered.antt =====
-- A pass of the sweeper over the store of backend/services/booking/store.go.
use unified_service_schedule.Common.{
  ℕ, ◌≤◌, String, ◌≡◌, ◌≢◌, ◌⊎◌, refl, subst, sym, ap, ◌∙◌, Bool, true, false, ◌&&◌, Option, none,
  some, [], ◌∷◌, map, In, here, there, In-map, select, length, eq_iff, arith, Result, ok, err,
  Bool-cases, inl, inr, is_none,
}
use unified_service_schedule.Booking.Types.{StoreError, AppointmentRow}
use unified_service_schedule.Booking.Clients.{TechClient, BayClient, World}
use unified_service_schedule.Booking.Store.{
  Rows, expired, batch, sweep_batch, cancelled_row, clear_row, clear_occupation_ids,
}
use unified_service_schedule.Booking.Store.Client.{Db, client}
use unified_service_schedule.Booking.Store.Sweep.{In-batch}
use unified_service_schedule.Booking.Saga.{on_store, release_tech, release_bay}
use unified_service_schedule.Booking.Saga.Compensation.{TechAccounts, BayAccounts}
use unified_service_schedule.Booking.Recovery.{
  is_ok, release_bay_of, release_tech_of, clear_if, release_row, release_cancelled, release_listed,
  after_sweep, sweep_once, sweep_limit,
}
use unified_service_schedule.Booking.Recovery.Sweep.{Freed, sweep_once-Freed}
use unified_service_schedule.Booking.Recovery.Cleared.{
  AreCancelled, AreCleared, sweep-AreCancelled, clear-AreCleared, clear-kept, clear-kept_cancelled,
}

module _ {T B : Type 0} (tech : TechClient T) (bay : BayClient B) (new_uuid : ℕ → String) where
  release_bay_of-store :
      (o : Option String) (w : World T B Db)
      → (release_bay_of tech bay (client new_uuid) o w).1.store ≡ w.store
  unfolding release_bay_of release_bay
  release_bay_of-store none w = refl
  release_bay_of-store (some id) w = ground arith

  release_tech_of-store :
      (o : Option String) (w : World T B Db)
      → (release_tech_of tech bay (client new_uuid) o w).1.store ≡ w.store
  unfolding release_tech_of release_tech
  release_tech_of-store none w = refl
  release_tech_of-store (some id) w = ground arith

  -- The table is as it was, or the row's ids are cleared.
  abbrev ClearedOrSame : String → Rows → Rows → Type 0
  ClearedOrSame id t u = (u ≡ t) ⊎ (u ≡ map (clear_row id) t)

  clear_if-rows :
      (b : Bool) (id : String) (w : World T B Db)
      → ClearedOrSame id w.store.rows (clear_if tech bay (client new_uuid) b id w).1.store.rows
  unfolding clear_if client clear_occupation_ids
  clear_if-rows false id w = inl refl
  clear_if-rows true id w = inr refl

  release_row-rows :
      (r : AppointmentRow) (w : World T B Db)
      → ClearedOrSame r.id w.store.rows (release_row tech bay (client new_uuid) r w).1.store.rows
  unfolding release_row
  release_row-rows r w =
      elim (Bool-cases (is_none r.bay_occupation_id && is_none r.tech_occupation_id)) [
        | inl e ↦ rw e (inl refl)
        | inr e ↦
            let (x, u) = release_bay_of tech bay (client new_uuid) r.bay_occupation_id w in
            let (y, v) = release_tech_of tech bay (client new_uuid) r.tech_occupation_id u in
            let same : v.store ≡ w.store =
              release_tech_of-store r.tech_occupation_id u
              ∙ release_bay_of-store r.bay_occupation_id w in
            let after : Rows =
              (clear_if tech bay (client new_uuid) (is_ok x && is_ok y) r.id v).1.store.rows in
            rw e (
              subst (λ (d : Db). ClearedOrSame r.id d.rows after) same
                (clear_if-rows (is_ok x && is_ok y) r.id v))
      ]

  release_row-kept :
      (id : String) (r : AppointmentRow) (w : World T B Db)
      → AreCleared id w.store.rows
      → AreCleared id (release_row tech bay (client new_uuid) r w).1.store.rows
  release_row-kept id r w h = elim (release_row-rows r w) [
    | inl e ↦ subst (AreCleared id) (sym e) h
    | inr e ↦ subst (AreCleared id) (sym e) (clear-kept id r.id w.store.rows h)
  ]

  release_row-kept_cancelled :
      (id : String) (r : AppointmentRow) (w : World T B Db)
      → AreCancelled id w.store.rows
      → AreCancelled id (release_row tech bay (client new_uuid) r w).1.store.rows
  release_row-kept_cancelled id r w h = elim (release_row-rows r w) [
    | inl e ↦ subst (AreCancelled id) (sym e) h
    | inr e ↦ subst (AreCancelled id) (sym e) (clear-kept_cancelled id r.id w.store.rows h)
  ]

  release_cancelled-kept :
      (id : String) (rs : Rows) (w : World T B Db)
      → AreCleared id w.store.rows
      → AreCleared id (release_cancelled tech bay (client new_uuid) rs w).1.store.rows
  unfolding release_cancelled
  release_cancelled-kept id [] w h = h
  release_cancelled-kept id (r ∷ rs) w h =
      release_cancelled-kept id rs (release_row tech bay (client new_uuid) r w).1
        (release_row-kept id r w h)

  module _ (ta : TechAccounts tech) (ba : BayAccounts bay) (t b : String) (tn : t ≢ "")
      (bn : b ≢ "") where
    release_row-clears :
        (r : AppointmentRow) (w : World T B Db)
        → r.tech_occupation_id ≡ some t
        → r.bay_occupation_id ≡ some b
        → AreCancelled r.id w.store.rows
        → AreCleared r.id (release_row tech bay (client new_uuid) r w).1.store.rows
    unfolding release_row release_bay_of release_tech_of release_tech release_bay clear_if client
        clear_occupation_ids
    release_row-clears r w et eb h =
        let rows : (release_row tech bay (client new_uuid) r w).1.store.rows
            ≡ map (clear_row r.id) w.store.rows =
          ground (
            arith,
            et,
            eb,
            eq_iff t "",
            eq_iff b "",
            ta.answers w.tech t tn,
            ba.answers w.bay b bn,
          ) in
        subst (AreCleared r.id) (sym rows) (clear-AreCleared r.id w.store.rows h)

    release_cancelled-clears :
        (r : AppointmentRow) (rs : Rows) (w : World T B Db)
        → In r rs
        → r.tech_occupation_id ≡ some t
        → r.bay_occupation_id ≡ some b
        → AreCancelled r.id w.store.rows
        → AreCleared r.id (release_cancelled tech bay (client new_uuid) rs w).1.store.rows
    unfolding release_cancelled
    release_cancelled-clears r [] w m et eb h = elim m [ ]
    release_cancelled-clears r (x ∷ rs) w (here e) et eb h =
        release_cancelled-kept r.id rs (release_row tech bay (client new_uuid) x w).1 (
          subst
            (λ (y : AppointmentRow).
              AreCleared y.id (release_row tech bay (client new_uuid) x w).1.store.rows)
            e
            (release_row-clears x w (ap (λ (y : AppointmentRow). y.tech_occupation_id) e ∙ et)
              (ap (λ (y : AppointmentRow). y.bay_occupation_id) e ∙ eb)
              (subst (λ (y : AppointmentRow). AreCancelled y.id w.store.rows) (sym e) h)))
    release_cancelled-clears r (x ∷ rs) w (there m) et eb h =
        release_cancelled-clears r rs (release_row tech bay (client new_uuid) x w).1 m et eb
          (release_row-kept_cancelled r.id x w h)

    release_listed-kept :
        (id : String) (o : Result StoreError Rows) (w : World T B Db)
        → AreCleared id w.store.rows
        → AreCleared id (release_listed tech bay (client new_uuid) o w).1.store.rows
    unfolding release_listed
    release_listed-kept id (err e) w h = h
    release_listed-kept id (ok rows) w h = release_cancelled-kept id rows w h

    after_sweep-clears :
        (r : AppointmentRow) (rs : Rows) (w : World T B Db)
        → In r rs
        → r.tech_occupation_id ≡ some t
        → r.bay_occupation_id ≡ some b
        → AreCancelled r.id w.store.rows
        → AreCleared r.id (after_sweep tech bay (client new_uuid) (ok rs) w).1.store.rows
    unfolding after_sweep client
    after_sweep-clears r rs w m et eb h =
        let u : World T B Db = (release_cancelled tech bay (client new_uuid) rs w).1 in
        let (pending, l) =
          on_store ((client new_uuid).list_cancelled_needing_release sweep_limit) u in
        release_listed-kept r.id pending l (release_cancelled-clears r rs w m et eb h)

    -- After a pass of the sweeper, neither occupation of a hold that had expired is a live claim any
    -- more, and its row is CANCELLED and points at no occupation, if the expired holds were not more
    -- than the limit of 50, the store answers and the allocators' Release calls go through.
    pub sweep_once_recovers :
        (r : AppointmentRow) (w : World T B Db)
        → In r w.store.rows
        → expired w.store.clock r ≡ true
        → length (select (expired w.store.clock) w.store.rows) ≤ sweep_limit
        → r.tech_occupation_id ≡ some t
        → r.bay_occupation_id ≡ some b
        → let v = (sweep_once tech bay (client new_uuid) w).1 in
          Freed tech bay (client new_uuid) ta ba t b v × AreCleared r.id v.store.rows
    unfolding client sweep_batch sweep_once cancelled_row
    sweep_once_recovers r w m e fits et eb =
        let now = w.store.clock in
        let chosen : Rows = batch sweep_limit now w.store.rows in
        let i = In-batch sweep_limit now r w.store.rows fits m e in
        (
          sweep_once-Freed tech bay (client new_uuid) ta ba (cancelled_row r) t b
              (map cancelled_row chosen) w refl (In-map cancelled_row i) et eb tn bn,
          after_sweep-clears (cancelled_row r) (map cancelled_row chosen)
              (on_store ((client new_uuid).sweep_batch sweep_limit) w).1 (In-map cancelled_row i) et
              eb (sweep-AreCancelled r chosen w.store.rows i),
        )
