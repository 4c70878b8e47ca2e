-- ===== src/Booking/Store/Sweep.antt =====
-- One SweepBatch: which holds it cancels.
use unified_service_schedule.Common.{
  ℕ, suc, ◌≤◌, ◌≡◌, ◌⊎◌, refl, ap, sym, ◌∙◌, true, false, [], ◌∷◌, map, arith, ◌==◌, eq_iff,
  eq_refl, any, select, length, In, here, there, Bool-cases, inl, inr, leb, In-select, select-In,
  map-In, In-map, In-any, any-In, not-any, subst, In-cons, In-later, take-In, take_all,
}
use unified_service_schedule.Booking.Types.{AppointmentRow}
use unified_service_schedule.Booking.Store.Valid.{IsValid}
use unified_service_schedule.Booking.Store.{
  Rows, expired, expiry, insert_by_expiry, sort_by_expiry, batch, sweep_row, sweep_batch, has_id,
}

-- the rows of a valid table with one id are one row
same_row : (t : Rows) (q r : AppointmentRow) → IsValid t → In q t → In r t → q.id ≡ r.id → q ≡ r
unfolding has_id
same_row [] q r v m n e = elim m [ ]
same_row (x ∷ t) q r v (here p) (here p') e = sym p ∙ p'
same_row (x ∷ t) q r v (here p) (there n) e =
    let unlike : (r.id == x.id) ≡ false = any-In (has_id x.id) t v.0 n in
    absurd (ground (arith, eq_iff r.id x.id, p))
same_row (x ∷ t) q r v (there m) (here p) e =
    let unlike : (q.id == x.id) ≡ false = any-In (has_id x.id) t v.0 m in
    absurd (ground (arith, eq_iff q.id x.id, p))
same_row (x ∷ t) q r v (there m) (there n) e = same_row t q r v.3 m n e

insert_by_expiry-In :
    (r q : AppointmentRow) (t : Rows) → In q (insert_by_expiry r t) → (r ≡ q) ⊎ In q t
unfolding insert_by_expiry
insert_by_expiry-In r q [] (here e) = inl e
insert_by_expiry-In r q [] (there m) = elim m [ ]
insert_by_expiry-In r q (s ∷ t) m = elim (Bool-cases (leb (expiry r) (expiry s))) [
  | inl k ↦ In-cons (rw k at m)
  | inr k ↦ In-later s (insert_by_expiry-In r q t) (In-cons (rw k at m))
]

In-insert_by_expiry :
    (r q : AppointmentRow) (t : Rows) → (r ≡ q) ⊎ In q t → In q (insert_by_expiry r t)
unfolding insert_by_expiry
In-insert_by_expiry r q [] (inl e) = here e
In-insert_by_expiry r q [] (inr m) = elim m [ ]
In-insert_by_expiry r q (s ∷ t) (inl e) = elim (Bool-cases (leb (expiry r) (expiry s))) [
  | inl k ↦ rw k (here e)
  | inr k ↦ rw k (there (In-insert_by_expiry r q t (inl e)))
]
In-insert_by_expiry r q (s ∷ t) (inr (here e)) = elim (Bool-cases (leb (expiry r) (expiry s))) [
  | inl k ↦ rw k (there (here e))
  | inr k ↦ rw k (here e)
]
In-insert_by_expiry r q (s ∷ t) (inr (there m)) = elim (Bool-cases (leb (expiry r) (expiry s))) [
  | inl k ↦ rw k (there (there m))
  | inr k ↦ rw k (there (In-insert_by_expiry r q t (inr m)))
]

In-sort_by_expiry : (q : AppointmentRow) (t : Rows) → In q t → In q (sort_by_expiry t)
unfolding sort_by_expiry
In-sort_by_expiry q [] m = elim m [ ]
In-sort_by_expiry q (r ∷ t) (here e) = In-insert_by_expiry r q (sort_by_expiry t) (inl e)
In-sort_by_expiry q (r ∷ t) (there m) =
    In-insert_by_expiry r q (sort_by_expiry t) (inr (In-sort_by_expiry q t m))

sort_by_expiry-In : (q : AppointmentRow) (t : Rows) → In q (sort_by_expiry t) → In q t
unfolding sort_by_expiry
sort_by_expiry-In q [] m = elim m [ ]
sort_by_expiry-In q (r ∷ t) m = elim (insert_by_expiry-In r q (sort_by_expiry t) m) [
  | inl e ↦ here e
  | inr i ↦ there (sort_by_expiry-In q t i)
]

length-insert_by_expiry :
    (r : AppointmentRow) (t : Rows) → length (insert_by_expiry r t) ≡ suc (length t)
unfolding insert_by_expiry
length-insert_by_expiry r [] = refl
length-insert_by_expiry r (s ∷ t) = ground (arith, length-insert_by_expiry r t)

length-sort_by_expiry : (t : Rows) → length (sort_by_expiry t) ≡ length t
unfolding sort_by_expiry
length-sort_by_expiry [] = refl
length-sort_by_expiry (r ∷ t) =
    length-insert_by_expiry r (sort_by_expiry t) ∙ ap suc (length-sort_by_expiry t)

-- A batch holds expired rows of the table only.
batch-In :
    (limit now : ℕ) (q : AppointmentRow) (t : Rows)
    → In q (batch limit now t)
    → In q t × (expired now q ≡ true)
unfolding batch
batch-In limit now q t m =
    select-In (expired now) t (sort_by_expiry-In q (select (expired now) t) (take-In limit _ m))

-- A batch that is not full holds them all.
pub In-batch :
    (limit now : ℕ) (q : AppointmentRow) (t : Rows)
    → length (select (expired now) t) ≤ limit
    → In q t
    → expired now q ≡ true
    → In q (batch limit now t)
unfolding batch
In-batch limit now q t fits m e =
    rw (take_all limit (sort_by_expiry (select (expired now) t)) (rw length-sort_by_expiry fits))
      (In-sort_by_expiry q (select (expired now) t) (In-select (expired now) t e m))

sweep_row-expired :
    (now : ℕ) (chosen : Rows) (x : AppointmentRow)
    → (expired now x ≡ true → In x chosen)
    → expired now (sweep_row chosen x) ≡ false
unfolding sweep_row expired
sweep_row-expired now chosen x h = elim (Bool-cases (expired now x)) [
  | inl e ↦ ground (arith, In-any (λ c. c.id == x.id) chosen (h e) (eq_refl x.id))
  | inr e ↦ ground (arith, e)
]

sweep_row_other :
    (chosen : Rows) (r : AppointmentRow)
    → any (λ c. c.id == r.id) chosen ≡ false
    → sweep_row chosen r ≡ r
unfolding sweep_row
sweep_row_other chosen r h = ground arith

-- a chosen row has another id than a row that is not expired
other :
    (limit now : ℕ) (t : Rows) (r : AppointmentRow)
    → IsValid t
    → In r t
    → expired now r ≡ false
    → (c : AppointmentRow) → In c (batch limit now t)
    → (c.id == r.id) ≡ false
other limit now t r v m live c i = elim (Bool-cases (c.id == r.id)) [
  | inr k ↦ k
  | inl k ↦
      let (j, e) = batch-In limit now c t i in
      absurd (ground (arith, same_row t c r v j m ((eq_iff c.id r.id).0 k)))
]

-- On a database that answers, a sweep whose limit the expired holds do not exceed leaves no
-- expired hold.
pub sweep_leaves_none_expired :
    (limit now : ℕ) (t : Rows) (r : AppointmentRow)
    → length (select (expired now) t) ≤ limit
    → In r (sweep_batch false limit now t).1
    → expired now r ≡ false
unfolding sweep_batch
sweep_leaves_none_expired limit now t r fits m =
    let (x, i, e) = map-In (sweep_row (batch limit now t)) t m in
    rw (← e) (sweep_row-expired now (batch limit now t) x (In-batch limit now x t fits i))

-- In a valid table a sweep leaves every appointment that is no expired hold as it is, whatever the
-- limit.
pub sweep_spares :
    (limit now : ℕ) (t : Rows) (r : AppointmentRow)
    → IsValid t
    → In r t
    → expired now r ≡ false
    → In r (sweep_batch false limit now t).1
unfolding sweep_batch
sweep_spares limit now t r v m live =
    subst (λ (x : AppointmentRow). In x (map (sweep_row (batch limit now t)) t))
      (sweep_row_other (batch limit now t) r
        (not-any (λ c. c.id == r.id) (batch limit now t) (λ c i. other limit now t r v m live c i)))
      (In-map (sweep_row (batch limit now t)) m)
