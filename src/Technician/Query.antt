-- ===== src/Technician/Query.antt =====
-- The candidate query of the technician allocator, against what it is meant to select.
use unified_service_schedule.Common.{
  ℕ, ◌+◌, ◌*◌, ◌≤◌, ◌≢◌, ◌⊎◌, String, ◌≡◌, refl, ap, ◌∙◌, true, false, Option, none, some, List, [],
  ◌∷◌, arith, eq_iff, any, select, least, inl, inr, In, here, there, In-map, map-In, In-select,
  select-In, In-append_left, In-append_right, append-In, any-In, In-any, not-any, any-true-In,
  least-In, least-some, least_le,
}
use unified_service_schedule.Occupancy.{Table, is_busy}
use unified_service_schedule.Occupancy.Claim.{Picked}
use unified_service_schedule.Technician.{
  Technician, Skill, Shift, Absence, Roster, Postgres, ReserveParams, with_skills, joined, end_of,
  minute_of_day, shift_covers, absent, qualifies, pick_hash, picked, pick,
}

with_skills-In :
    (service : String) (t u : Technician) (sk : Skill) (skills : List Skill)
    → In (u, sk) (with_skills service t skills)
    → (t ≡ u) × In sk skills × (sk.technician_id ≡ t.id) × (sk.service_type_id ≡ service)
unfolding with_skills
with_skills-In service t u sk skills m =
    let (x, i, e) = map-In (λ (y : Skill). (t, y)) (select _ skills) m in
    let (j, f) = select-In _ skills i in
    let same : x ≡ sk = ap (λ (y : Technician × Skill). y.1) e in
    (
      ap (λ (y : Technician × Skill). y.0) e,
      rw same at j,
      ground (arith, same, f, eq_iff x.technician_id t.id),
      ground (arith, same, f, eq_iff x.service_type_id service),
    )

In-with_skills :
    (service : String) (t : Technician) (sk : Skill) (skills : List Skill)
    → In sk skills
    → sk.technician_id ≡ t.id
    → sk.service_type_id ≡ service
    → In (t, sk) (with_skills service t skills)
unfolding with_skills
In-with_skills service t sk skills m e f =
    In-map (λ (y : Skill). (t, y))
      (In-select _ skills
        (ground (arith, eq_iff sk.technician_id t.id, eq_iff sk.service_type_id service)) m)

joined-In :
    (service : String) (t : Technician) (sk : Skill) (ts : List Technician) (skills : List Skill)
    → In (t, sk) (joined service ts skills)
    → In t ts × In sk skills × (sk.technician_id ≡ t.id) × (sk.service_type_id ≡ service)
unfolding joined
joined-In service t sk [] skills m = elim m [ ]
joined-In service t sk (u ∷ ts) skills m = elim (append-In (with_skills service u skills) _ m) [
  | inl i ↦
      let k = with_skills-In service u t sk skills i in
      (here k.0, k.1, k.2 ∙ ap (λ (y : Technician). y.id) k.0, k.3)
  | inr i ↦ let k = joined-In service t sk ts skills i in (there k.0, k.1, k.2, k.3)
]

In-joined :
    (service : String) (t : Technician) (sk : Skill) (ts : List Technician) (skills : List Skill)
    → In t ts
    → In sk skills
    → sk.technician_id ≡ t.id
    → sk.service_type_id ≡ service
    → In (t, sk) (joined service ts skills)
unfolding joined
In-joined service t sk [] skills m n e f = elim m [ ]
In-joined service t sk (u ∷ ts) skills (here p) n e f =
    In-append_left (with_skills service u skills) (joined service ts skills)
      (rw (← p) (In-with_skills service u sk skills n (ground (arith, p)) f))
In-joined service t sk (u ∷ ts) skills (there m) n e f =
    In-append_right (with_skills service u skills) (joined service ts skills)
      (In-joined service t sk ts skills m n e f)

-- The shift is one of the technician's, on the local weekday of the start; it has begun by the local
-- time of day of the start, and ends no earlier than the local time of day of the end.
pub record OnShift (pg : Postgres) (t : Technician) (s e : ℕ) (sh : Shift) : Type 0 where
  pub own : sh.technician_id ≡ t.id
  pub day : sh.weekday ≡ pg.isodow t.timezone s
  pub begun : sh.start_minutes ≤ pg.hour t.timezone s * 60 + pg.minute_of_hour t.timezone s
  pub ends : pg.hour t.timezone e * 60 + pg.minute_of_hour t.timezone e ≤ sh.end_minutes

shift_covers-OnShift :
    (pg : Postgres) (t : Technician) (s e : ℕ) (sh : Shift)
    → shift_covers pg t s e sh ≡ true
    → OnShift pg t s e sh
unfolding shift_covers minute_of_day
shift_covers-OnShift pg t s e sh h = record {
  own = ground (arith, eq_iff sh.technician_id t.id);
  day = ground arith;
  begun = ground arith;
  ends = ground arith;
}

OnShift-shift_covers :
    (pg : Postgres) (t : Technician) (s e : ℕ) (sh : Shift)
    → OnShift pg t s e sh
    → shift_covers pg t s e sh ≡ true
unfolding shift_covers minute_of_day
OnShift-shift_covers pg t s e sh h =
    ground (arith, eq_iff sh.technician_id t.id, h.own, h.day, h.begun, h.ends)

-- The absence is another's, or it and the interval [s, e) have no instant in common.
abbrev pub Elsewhen : Technician → ℕ → ℕ → Absence → Type 0
Elsewhen t s e a =
    (a.technician_id ≢ t.id) ⊎ (a.end_at ≤ a.start_at) ⊎ (e ≤ s) ⊎ (a.end_at ≤ s) ⊎ (e ≤ a.start_at)

absent-Elsewhen :
    (pg : Postgres) (t : Technician) (s e : ℕ) (a : Absence)
    → absent pg t s e a ≡ false
    → Elsewhen t s e a
unfolding absent
absent-Elsewhen pg t s e a h = ground (arith, eq_iff a.technician_id t.id)

Elsewhen-absent :
    (pg : Postgres) (t : Technician) (s e : ℕ) (a : Absence)
    → Elsewhen t s e a
    → absent pg t s e a ≡ false
unfolding absent
Elsewhen-absent pg t s e a h = ground (arith, eq_iff a.technician_id t.id)

module _ (pg : Postgres) (ro : Roster) (p : ReserveParams) (occ : Table) where
  -- The technician works for the dealership, has the skill, and is free to use it from the start
  -- asked for until its duration has passed.
  pub record Fits (t : Technician) (sk : Skill) : Type 0 where
    pub technician : In t ro.technicians
    pub skill : In sk ro.skills
    pub skilled : sk.technician_id ≡ t.id
    pub service : sk.service_type_id ≡ p.service_type_id
    pub dealership : t.dealership_id ≡ p.dealership_id
    pub active : t.active ≡ true
    pub closes : end_of p.start sk ≤ p.latest_end
    pub shift : (sh : Shift) × In sh ro.shifts × OnShift pg t p.start (end_of p.start sk) sh
    pub present : (a : Absence) → In a ro.absences → Elsewhen t p.start (end_of p.start sk) a
    pub free : is_busy t.id p.start (end_of p.start sk) occ ≡ false

  candidates : List (Technician × Skill)
  candidates = select (qualifies pg ro p occ) (joined p.service_type_id ro.technicians ro.skills)

  candidate-Fits : (t : Technician) (sk : Skill) → In (t, sk) candidates → Fits t sk
  unfolding candidates qualifies
  candidate-Fits t sk m =
      let (i, q) =
        select-In (qualifies pg ro p occ) (joined p.service_type_id ro.technicians ro.skills) m in
      let j = joined-In p.service_type_id t sk ro.technicians ro.skills i in
      let on_shift : any (shift_covers pg t p.start (end_of p.start sk)) ro.shifts ≡ true =
        ground arith in
      let here_all : any (absent pg t p.start (end_of p.start sk)) ro.absences ≡ false =
        ground arith in
      let (sh, n, covered) = any-true-In _ ro.shifts on_shift in
      record {
        technician = j.0;
        skill = j.1;
        skilled = j.2;
        service = j.3;
        dealership = ground (arith, eq_iff t.dealership_id p.dealership_id);
        active = ground arith;
        closes = ground arith;
        shift = (sh, n, shift_covers-OnShift pg t p.start (end_of p.start sk) sh covered);
        present = λ a m'.
            absent-Elsewhen pg t p.start (end_of p.start sk) a (any-In _ ro.absences here_all m');
        free = ground arith;
      }

  Fits-candidate : (t : Technician) (sk : Skill) → Fits t sk → In (t, sk) candidates
  unfolding candidates qualifies
  Fits-candidate t sk f =
      let (sh, i, e) = f.shift in
      In-select (qualifies pg ro p occ) _
        (ground (
          arith,
          eq_iff t.dealership_id p.dealership_id,
          f.closes,
          In-any (shift_covers pg t p.start (end_of p.start sk)) ro.shifts i
              (OnShift-shift_covers pg t p.start (end_of p.start sk) sh e),
          not-any (absent pg t p.start (end_of p.start sk)) ro.absences
              (λ a n. Elsewhen-absent pg t p.start (end_of p.start sk) a (f.present a n)),
        ))
        (In-joined p.service_type_id t sk ro.technicians ro.skills f.technician f.skill f.skilled
          f.service)

  -- What the query picks: a technician that fits, with the hash of no other smaller.
  pub record PickedFits (c : Picked) : Type 0 where
    pub technician : Technician
    pub skill : Skill
    pub fits : Fits technician skill
    pub resource : c.resource_id ≡ technician.id
    pub start_at : c.start_at ≡ p.start
    pub end_at : c.end_at ≡ end_of p.start skill
    pub first :
        (t : Technician) (sk : Skill)
        → Fits t sk
        → pick_hash pg p (technician, skill) ≤ pick_hash pg p (t, sk)

  picked-PickedFits :
      (o : Option (Technician × Skill)) (c : Picked)
      → least (pick_hash pg p) candidates ≡ o
      → picked pg p o ≡ some c
      → PickedFits c
  unfolding picked
  picked-PickedFits none c e h = cc
  picked-PickedFits (some (t, sk)) c e h = record {
    technician = t;
    skill = sk;
    fits = candidate-Fits t sk (least-In (pick_hash pg p) candidates (t, sk) e);
    resource = ground arith;
    start_at = ground arith;
    end_at = ground arith;
    first =
        λ u sl f. least_le (pick_hash pg p) candidates (t, sk) (u, sl) e (Fits-candidate u sl f);
  }

  -- The candidate that the query picks fits, and its hash is the least.
  pub pick-PickedFits : (c : Picked) → pick pg ro p occ ≡ some c → PickedFits c
  unfolding pick candidates
  pick-PickedFits c h = picked-PickedFits _ c refl h

  -- If a technician fits, the query picks one.
  pub Fits-pick :
      (t : Technician) (sk : Skill) → Fits t sk → (c : Picked) × (pick pg ro p occ ≡ some c)
  unfolding pick candidates picked
  Fits-pick t sk f =
      let ((u, sl), e) = least-some (pick_hash pg p) candidates (t, sk) (Fits-candidate t sk f) in
      (record { resource_id = u.id; start_at = p.start; end_at = end_of p.start sl }, rw e)
