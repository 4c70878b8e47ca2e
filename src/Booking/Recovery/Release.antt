-- ===== src/Booking/Recovery/Release.antt =====
-- The releases of Cancel and of the sweeper: Service.Cancel and Service.releaseCancelled.
use unified_service_schedule.Common.{
  String, ◌≡◌, ◌≢◌, refl, true, false, ◌&&◌, some, eq_iff, arith, Result, ok, err, Bool-cases, inl,
  inr, ◌⊎◌,
}
use unified_service_schedule.Technician.Server as TechServer
use unified_service_schedule.Bay.Server as BayServer
use unified_service_schedule.Booking.Types.{AppointmentRow}
use unified_service_schedule.Booking.Clients.{TechClient, BayClient, StoreClient, World}
use unified_service_schedule.Booking.Laws.{Accounts}
use unified_service_schedule.Booking.Saga.{release_tech, release_bay}
use unified_service_schedule.Booking.Saga.Compensation.{TechAccounts, BayAccounts}
use unified_service_schedule.Booking.Recovery.{
  is_ok, release_bay_of, release_tech_of, after_cancel, cancel_found, cancel, clear_if, release_row,
}

abbrev pub TechClaims : {T : Type 0} → TechClient T → Type 0
TechClaims tech =
    Accounts tech.reserve tech.release (λ (r : TechServer.ReserveResponse). r.occupation_id)

abbrev pub BayClaims : {B : Type 0} → BayClient B → Type 0
BayClaims bay =
    Accounts bay.reserve bay.release (λ (r : BayServer.ReserveResponse). r.occupation_id)

is_ok-eq : {E : Type 0} (r : Result E (Unit {0})) → is_ok r ≡ true → r ≡ ok tt
is_ok-eq (ok u) h = refl
is_ok-eq (err e) h = cc

module _ {T B S : Type 0} (tech : TechClient T) (bay : BayClient B) (store : StoreClient S)
    (ta : TechClaims tech) (ba : BayClaims bay) where
  -- Of a row with both occupations, the sweeper clears the occupation ids only when both have
  -- stopped to be live claims; else it leaves the store alone, and the row for the next pass.
  pub release_row_gated :
      (row : AppointmentRow) (t b : String) (w : World T B S)
      → row.tech_occupation_id ≡ some t
      → row.bay_occupation_id ≡ some b
      → t ≢ ""
      → b ≢ ""
      → let w' = (release_row tech bay store row w).1 in
        (w'.store ≡ w.store)
        ⊎ (w'.store ≡ (store.clear_occupation_ids row.id w.store).1)
          × (ta.live w'.tech t ≡ false)
          × (ba.live w'.bay b ≡ false)
  unfolding release_row release_bay_of release_tech_of release_tech release_bay clear_if
  release_row_gated row t b w et eb tn bn =
      elim (Bool-cases (is_ok (bay.release b w.bay).0 && is_ok (tech.release t w.tech).0)) [
        | inr k ↦ inl (ground (arith, et, eb, k, eq_iff t "", eq_iff b ""))
        | inl k ↦
            let bay_ok = is_ok-eq (bay.release b w.bay).0 (ground arith) in
            let tech_ok = is_ok-eq (tech.release t w.tech).0 (ground arith) in
            inr (
              ground (
                arith,
                et,
                eb,
                k,
                eq_iff t "",
                eq_iff b "",
                ta.dropped w.tech t tn tech_ok,
                ba.dropped w.bay b bn bay_ok,
              ))
      ]

module _ {T B S : Type 0} (tech : TechClient T) (bay : BayClient B) (store : StoreClient S)
    (ta : TechAccounts tech) (ba : BayAccounts bay) where
  -- If the allocators' Release calls all go through, a Cancel that succeeds, of an appointment
  -- with both occupations, has run the store's Cancel and freed both.
  pub cancel_frees :
      (id t b : String) (row : AppointmentRow) (w : World T B S)
      → (store.get id w.store).0 ≡ ok row
      → row.tech_occupation_id ≡ some t
      → row.bay_occupation_id ≡ some b
      → t ≢ ""
      → b ≢ ""
      → (cancel tech bay store id w).0 ≡ ok tt
      → let w' = (cancel tech bay store id w).1 in
        (w'.store ≡ (store.cancel id (store.get id w.store).1).1)
        × (ta.live w'.tech t ≡ false)
        × (ba.live w'.bay b ≡ false)
  unfolding cancel cancel_found after_cancel release_bay_of release_tech_of release_tech release_bay
  cancel_frees id t b row w g et eb tn bn h = ground (
    arith,
    g,
    et,
    eb,
    eq_iff t "",
    eq_iff b "",
    ta.dropped w.tech t tn (ta.answers w.tech t tn),
    ba.dropped w.bay b bn (ba.answers w.bay b bn),
  )
