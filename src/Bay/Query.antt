-- ===== src/Bay/Query.antt =====
-- The candidate query of the bay allocator, backend/services/bay/reserve.go, against what it is meant
-- to select.
use unified_service_schedule.Common.{
  ℕ, String, ◌≡◌, refl, true, false, Option, none, some, List, eq_iff, In, arith, select, In-select,
  select-In, least, least-In, least-some,
}
use unified_service_schedule.Occupancy.{Table, is_busy}
use unified_service_schedule.Occupancy.Claim.{Picked}
use unified_service_schedule.Bay.{ServiceBay, ReserveParams, is_free, picked, pick_hash, pick}

-- An active bay of the dealership that nobody claims for any part of the interval.
pub record Fits (bays : List ServiceBay) (p : ReserveParams) (occ : Table) (b : ServiceBay)
    : Type 0 where
  pub bay : In b bays
  pub dealership : b.dealership_id ≡ p.dealership_id
  pub active : b.active ≡ true
  pub free : is_busy b.id p.start p.end occ ≡ false

module _ (hashtext : String → ℕ) (bays : List ServiceBay) where
  candidate-Fits :
      (p : ReserveParams) (occ : Table) (b : ServiceBay)
      → In b (select (is_free p occ) bays)
      → Fits bays p occ b
  unfolding is_free
  candidate-Fits p occ b m =
      let (i, q) = select-In (is_free p occ) bays m in
      record {
        bay = i;
        dealership = ground (arith, eq_iff b.dealership_id p.dealership_id);
        active = ground arith;
        free = ground arith;
      }

  Fits-candidate :
      (p : ReserveParams) (occ : Table) (b : ServiceBay)
      → Fits bays p occ b
      → In b (select (is_free p occ) bays)
  unfolding is_free
  Fits-candidate p occ b f =
      In-select (is_free p occ) bays (ground (arith, eq_iff b.dealership_id p.dealership_id)) f.bay

  -- The resource and the interval of a pick, which fits.
  pub record PickedFits (p : ReserveParams) (occ : Table) (c : Picked) : Type 0 where
    pub bay : ServiceBay
    pub fits : Fits bays p occ bay
    pub resource : c.resource_id ≡ bay.id
    pub start_at : c.start_at ≡ p.start
    pub end_at : c.end_at ≡ p.end

  picked-PickedFits :
      (p : ReserveParams) (occ : Table) (o : Option ServiceBay) (c : Picked)
      → least (pick_hash hashtext p) (select (is_free p occ) bays) ≡ o
      → picked p o ≡ some c
      → PickedFits p occ c
  unfolding picked
  picked-PickedFits p occ none c e h = cc
  picked-PickedFits p occ (some b) c e h = record {
    bay = b;
    fits = candidate-Fits p occ b (least-In (pick_hash hashtext p) _ b e);
    resource = ground arith;
    start_at = ground arith;
    end_at = ground arith;
  }

  pub pick-PickedFits :
      (p : ReserveParams) (occ : Table) (c : Picked)
      → pick hashtext bays p occ ≡ some c
      → PickedFits p occ c
  unfolding pick
  pick-PickedFits p occ c h = picked-PickedFits p occ _ c refl h

  pub Fits-pick :
      (p : ReserveParams) (occ : Table) (b : ServiceBay)
      → Fits bays p occ b
      → (c : Picked) × (pick hashtext bays p occ ≡ some c)
  unfolding pick picked
  Fits-pick p occ b f =
      let (d, e) = least-some (pick_hash hashtext p) _ b (Fits-candidate p occ b f) in
      (record { resource_id = d.id; start_at = p.start; end_at = p.end }, rw e)
