-- ===== src/Occupancy/Valid.antt =====
-- What the schema promises of an occupation table, and the statements.
use unified_service_schedule.Common.{
  ℕ, ◌<◌, String, ◌≡◌, Bool, true, false, ◌&&◌, [], ◌∷◌, map, arith, ◌==◌, any, select, refl, In,
  here, there, sym, ◌∙◌, any-In, eq_iff,
}
use unified_service_schedule.Occupancy.{
  OccRow, Table, is_live, claims, is_busy, inserted, insert, delete_expired, update_confirmed,
  confirm_row, confirmable, update_released, release_row,
}

-- Each row has a proper interval and an id of its own, and no two live claims of one resource meet.
abbrev pub IsValid : Table → Type 0
IsValid [] = Unit {0}
IsValid (r ∷ t) =
    (r.start_at < r.end_at)
    × (any (λ s. s.id == r.id) t ≡ false)
    × ((is_live r.status && is_busy r.resource_id r.start_at r.end_at t) ≡ false)
    × IsValid t

pub insert-IsValid :
    (r : OccRow) (t : Table) {u : Table} → IsValid t → insert r t ≡ inserted u → IsValid u
unfolding insert
insert-IsValid r t v e = ground arith

-- An accepted row stands before the others.
pub insert-eq : (r : OccRow) (t : Table) {u : Table} → insert r t ≡ inserted u → u ≡ r ∷ t
unfolding insert
insert-eq r t e = ground arith

any-select : (p q : OccRow → Bool) (t : Table) → any q t ≡ false → any q (select p t) ≡ false
any-select p q [] h = refl
any-select p q (r ∷ t) h = ground (arith, any-select p q t)

select-IsValid : (p : OccRow → Bool) (t : Table) → IsValid t → IsValid (select p t)
unfolding is_busy
select-IsValid p [] v = tt
select-IsValid p (r ∷ t) v = ground (
  arith,
  select-IsValid p t v.3,
  any-select p (λ s. s.id == r.id) t,
  any-select p (claims r.resource_id r.start_at r.end_at) t,
)

pub delete_expired-IsValid : (now : ℕ) (t : Table) → IsValid t → IsValid (delete_expired now t)
unfolding delete_expired
delete_expired-IsValid now t v = select-IsValid _ t v

-- The rows of a valid table with one id are one row
pub same_row : (t : Table) (q r : OccRow) → IsValid t → In q t → In r t → q.id ≡ r.id → q ≡ r
same_row [] q r v m n e = elim m [ ]
same_row (x ∷ t) q r v (here p) (here p') e = sym p ∙ p'
same_row (x ∷ t) q r v (here p) (there n) e =
    let unlike : (r.id == x.id) ≡ false = any-In _ t v.1 n in
    absurd (ground (arith, eq_iff r.id x.id, p))
same_row (x ∷ t) q r v (there m) (here p) e =
    let unlike : (q.id == x.id) ≡ false = any-In _ t v.1 m in
    absurd (ground (arith, eq_iff q.id x.id, p))
same_row (x ∷ t) q r v (there m) (there n) e = same_row t q r v.3 m n e

-- An update that moves no claim and makes none live.
pub record Keeps (f : OccRow → OccRow) : Type 0 where
  pub id : (r : OccRow) → (f r).id ≡ r.id
  pub resource : (r : OccRow) → (f r).resource_id ≡ r.resource_id
  pub start : (r : OccRow) → (f r).start_at ≡ r.start_at
  pub end : (r : OccRow) → (f r).end_at ≡ r.end_at
  pub live : (r : OccRow) → is_live (f r).status ≡ true → is_live r.status ≡ true

module _ (f : OccRow → OccRow) (k : Keeps f) where
  any_id-map : (i : String) (t : Table) → any (λ s. s.id == i) (map f t) ≡ any (λ s. s.id == i) t
  any_id-map i [] = refl
  any_id-map i (r ∷ t) = ground (arith, any_id-map i t, k.id r)

  is_busy-map :
      (i : String) (s e : ℕ) (t : Table) → is_busy i s e t ≡ false → is_busy i s e (map f t) ≡ false
  unfolding is_busy claims
  is_busy-map i s e [] h = refl
  is_busy-map i s e (r ∷ t) h =
      ground (arith, is_busy-map i s e t, k.resource r, k.start r, k.end r, k.live r)

  map-IsValid : (t : Table) → IsValid t → IsValid (map f t)
  map-IsValid [] v = tt
  map-IsValid (r ∷ t) v = ground (
    arith,
    map-IsValid t v.3,
    any_id-map r.id t,
    is_busy-map r.resource_id r.start_at r.end_at t,
    k.id r,
    k.resource r,
    k.start r,
    k.end r,
    k.live r,
  )

pub confirm_row-Keeps : (now : ℕ) (i : String) → Keeps (confirm_row now i)
unfolding confirm_row confirmable
confirm_row-Keeps now i = record {
  id = λ r. ground arith;
  resource = λ r. ground arith;
  start = λ r. ground arith;
  end = λ r. ground arith;
  live = λ r h. ground arith;
}

pub release_row-Keeps : (i : String) → Keeps (release_row i)
unfolding release_row
release_row-Keeps i = record {
  id = λ r. ground arith;
  resource = λ r. ground arith;
  start = λ r. ground arith;
  end = λ r. ground arith;
  live = λ r h. ground arith;
}

pub update_confirmed-IsValid :
    (now : ℕ) (i : String) (t : Table) → IsValid t → IsValid (update_confirmed now i t).1
unfolding update_confirmed
update_confirmed-IsValid now i t v = map-IsValid (confirm_row now i) (confirm_row-Keeps now i) t v

pub update_released-IsValid : (i : String) (t : Table) → IsValid t → IsValid (update_released i t)
unfolding update_released
update_released-IsValid i t v = map-IsValid (release_row i) (release_row-Keeps i) t v
