-- ===== src/Booking/Recovery/Sweep.antt =====
-- A pass of the sweeper: Service.sweepOnce of backend/services/booking/service.go.
use unified_service_schedule.Common.{
  String, ◌≡◌, ◌≢◌, ap, ◌∙◌, Bool, true, false, ◌&&◌, Option, none, some, List, [], ◌∷◌, In, here,
  there, eq_iff, arith, Result, ok, err, Bool-cases, inl, inr, ◌==◌, is_none,
}
use unified_service_schedule.Booking.Types.{StoreError, AppointmentRow}
use unified_service_schedule.Booking.Clients.{TechClient, BayClient, StoreClient, World}
use unified_service_schedule.Booking.Saga.{on_store, release_tech, release_bay}
use unified_service_schedule.Booking.Saga.Compensation.{TechAccounts, BayAccounts, NoNewClaims}
use unified_service_schedule.Booking.Recovery.{
  release_bay_of, release_tech_of, clear_if, release_row, release_cancelled, release_listed,
  after_sweep, sweep_once, sweep_limit,
}

module _ {T B S : Type 0} (tech : TechClient T) (bay : BayClient B) (store : StoreClient S)
    (ta : TechAccounts tech) (ba : BayAccounts bay) where
  abbrev Kept : World T B S → World T B S → Type 0
  Kept w v = NoNewClaims tech bay ta ba w v

  Kept-trans : {u v w : World T B S} → Kept u v → Kept v w → Kept u w
  Kept-trans a b = record {
    tech_claims = λ x h. a.tech_claims x (b.tech_claims x h);
    bay_claims = λ x h. a.bay_claims x (b.bay_claims x h);
  }

  release_bay_of-Kept :
      (o : Option String) (w : World T B S) → Kept w (release_bay_of tech bay store o w).1
  unfolding release_bay_of release_bay
  release_bay_of-Kept none w = record { tech_claims = λ x h. h; bay_claims = λ x h. h }
  release_bay_of-Kept (some id) w = elim (Bool-cases (id == "")) [
    | inl e ↦ rw e (record { tech_claims = λ x h. h; bay_claims = λ x h. h })
    | inr e ↦ rw e (record { tech_claims = λ x h. h; bay_claims = λ x h. ba.others w.bay id x h })
  ]

  release_tech_of-Kept :
      (o : Option String) (w : World T B S) → Kept w (release_tech_of tech bay store o w).1
  unfolding release_tech_of release_tech
  release_tech_of-Kept none w = record { tech_claims = λ x h. h; bay_claims = λ x h. h }
  release_tech_of-Kept (some id) w = elim (Bool-cases (id == "")) [
    | inl e ↦ rw e (record { tech_claims = λ x h. h; bay_claims = λ x h. h })
    | inr e ↦ rw e (record { tech_claims = λ x h. ta.others w.tech id x h; bay_claims = λ x h. h })
  ]

  clear_if-Kept :
      (b : Bool) (id : String) (w : World T B S) → Kept w (clear_if tech bay store b id w).1
  unfolding clear_if
  clear_if-Kept false id w = record { tech_claims = λ x h. h; bay_claims = λ x h. h }
  clear_if-Kept true id w = record { tech_claims = λ x h. h; bay_claims = λ x h. h }

  release_row-Kept :
      (r : AppointmentRow) (w : World T B S) → Kept w (release_row tech bay store r w).1
  unfolding release_row
  release_row-Kept r w =
      elim (Bool-cases (is_none r.bay_occupation_id && is_none r.tech_occupation_id)) [
        | inl e ↦ rw e (record { tech_claims = λ x h. h; bay_claims = λ x h. h })
        | inr e ↦ rw e (
            Kept-trans (release_bay_of-Kept r.bay_occupation_id w)
              (Kept-trans (release_tech_of-Kept r.tech_occupation_id _) (clear_if-Kept _ r.id _)))
      ]

  release_cancelled-Kept :
      (rs : List AppointmentRow) (w : World T B S)
      → Kept w (release_cancelled tech bay store rs w).1
  unfolding release_cancelled
  release_cancelled-Kept [] w = record { tech_claims = λ x h. h; bay_claims = λ x h. h }
  release_cancelled-Kept (r ∷ rs) w =
      Kept-trans (release_row-Kept r w)
        (release_cancelled-Kept rs (release_row tech bay store r w).1)

  -- Neither occupation of the row is a live claim.
  abbrev pub Freed : String → String → World T B S → Type 0
  Freed t b w = (ta.live w.tech t ≡ false) × (ba.live w.bay b ≡ false)

  Freed-Kept : (t b : String) (u v : World T B S) → Freed t b u → Kept u v → Freed t b v
  Freed-Kept t b u v (p, q) k = (ground (arith, k.tech_claims t), ground (arith, k.bay_claims b))

  release_row-Freed :
      (r : AppointmentRow) (t b : String) (w : World T B S)
      → r.tech_occupation_id ≡ some t
      → r.bay_occupation_id ≡ some b
      → t ≢ ""
      → b ≢ ""
      → Freed t b (release_row tech bay store r w).1
  unfolding release_row release_bay_of release_tech_of release_tech release_bay clear_if
  release_row-Freed r t b w et eb tn bn = ground (
    arith,
    et,
    eb,
    eq_iff t "",
    eq_iff b "",
    ta.dropped w.tech t tn (ta.answers w.tech t tn),
    ba.dropped w.bay b bn (ba.answers w.bay b bn),
  )

  release_cancelled-Freed :
      (r : AppointmentRow) (t b : String) (rs : List AppointmentRow) (w : World T B S)
      → In r rs
      → r.tech_occupation_id ≡ some t
      → r.bay_occupation_id ≡ some b
      → t ≢ ""
      → b ≢ ""
      → Freed t b (release_cancelled tech bay store rs w).1
  unfolding release_cancelled
  release_cancelled-Freed r t b [] w m et eb tn bn = elim m [ ]
  release_cancelled-Freed r t b (x ∷ rs) w (here e) et eb tn bn =
      Freed-Kept t b _ _
        (release_row-Freed x t b w (ap (λ (y : AppointmentRow). y.tech_occupation_id) e ∙ et)
          (ap (λ (y : AppointmentRow). y.bay_occupation_id) e ∙ eb) tn bn)
        (release_cancelled-Kept rs (release_row tech bay store x w).1)
  release_cancelled-Freed r t b (x ∷ rs) w (there m) et eb tn bn =
      release_cancelled-Freed r t b rs (release_row tech bay store x w).1 m et eb tn bn

  release_listed-Kept :
      (o : Result StoreError (List AppointmentRow)) (w : World T B S)
      → Kept w (release_listed tech bay store o w).1
  unfolding release_listed
  release_listed-Kept (err e) w = record { tech_claims = λ x h. h; bay_claims = λ x h. h }
  release_listed-Kept (ok rows) w = release_cancelled-Kept rows w

  after_sweep-Freed :
      (r : AppointmentRow) (t b : String) (rows : List AppointmentRow) (v : World T B S)
      → In r rows
      → r.tech_occupation_id ≡ some t
      → r.bay_occupation_id ≡ some b
      → t ≢ ""
      → b ≢ ""
      → Freed t b (after_sweep tech bay store (ok rows) v).1
  unfolding after_sweep
  after_sweep-Freed r t b rows v m et eb tn bn =
      let u : World T B S = (release_cancelled tech bay store rows v).1 in
      let (pending, l) = on_store (store.list_cancelled_needing_release sweep_limit) u in
      Freed-Kept t b l (release_listed tech bay store pending l).1
        (release_cancelled-Freed r t b rows v m et eb tn bn) (release_listed-Kept pending l)

  -- If the batch has a row with both occupations, a pass frees both.
  pub sweep_once-Freed :
      (r : AppointmentRow) (t b : String) (rows : List AppointmentRow) (w : World T B S)
      → (store.sweep_batch sweep_limit w.store).0 ≡ ok rows
      → In r rows
      → r.tech_occupation_id ≡ some t
      → r.bay_occupation_id ≡ some b
      → t ≢ ""
      → b ≢ ""
      → Freed t b (sweep_once tech bay store w).1
  unfolding sweep_once
  sweep_once-Freed r t b rows w e m et eb tn bn =
      rw e
        (after_sweep-Freed r t b rows (on_store (store.sweep_batch sweep_limit) w).1 m et eb tn bn)
