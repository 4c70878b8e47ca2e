-- ===== src/Occupancy/Lifecycle.antt =====
-- The life of a claim: its TTL, its confirmation and its release, in both reserve.go files.
use unified_service_schedule.Common.{
  ℕ, ◌≤◌, ◌<◌, String, ◌≡◌, ◌≢◌, ◌↔◌, true, false, ◌&&◌, [], ◌∷◌, map, some, arith, ◌==◌, eq_iff,
  any, In, Bool-cases, inl, inr, refl, map-In, ap, sym, ◌∙◌, not-any, In-any, ok, ltb, lt→ltb,
  ltb→lt, eq_refl,
}
use unified_service_schedule.Occupancy.{
  OccRow, held, Table, is_live, claims, is_busy, update_confirmed, confirm_row, confirms,
  confirmable, update_released, release_row,
}
use unified_service_schedule.Occupancy.Valid.{IsValid, same_row}
use unified_service_schedule.Occupancy.Steps.{IsValid-Apart}
use unified_service_schedule.Occupancy.Handlers.{confirm, release}

confirm_ok :
    (now : ℕ) (id : String) (t : Table)
    → id ≢ ""
    → (any (confirms now id) t) ≡ true
    → (confirm false now id t).0 ≡ ok tt
unfolding confirm update_confirmed
confirm_ok now id t ne h = ground (arith, eq_iff id "")

ok_confirm :
    (now : ℕ) (id : String) (t : Table)
    → (confirm false now id t).0 ≡ ok tt
    → any (confirms now id) t ≡ true
unfolding confirm update_confirmed
ok_confirm now id t h = ground arith

-- In a valid table, on a database that answers, a Confirm of a hold succeeds exactly before the
-- hold expires.
pub confirm_before_ttl :
    (t : Table) (r : OccRow) (now x : ℕ)
    → IsValid t
    → In r t
    → r.id ≢ ""
    → r.status ≡ held
    → r.hold_expires_at ≡ some x
    → ((confirm false now r.id t).0 ≡ ok tt) ↔ (now < x)
unfolding confirms confirmable
confirm_before_ttl t r now x v m ne st ex = (
  λ h. elim (Bool-cases (ltb now x)) [
    | inl k ↦ ltb→lt now x k
    | inr k ↦
        let none_fits = not-any (confirms now r.id) t (λ q n. elim (Bool-cases (q.id == r.id)) [
          | inl e ↦ ground (arith, same_row t q r v n m ((eq_iff q.id r.id).0 e))
          | inr e ↦ ground arith
        ]) in
        ground (arith, none_fits, ok_confirm now r.id t h)
  ],
  λ h.
      confirm_ok now r.id t ne
        (In-any (confirms now r.id) t m (ground (arith, eq_refl r.id, lt→ltb now x h))),
)

-- what a Confirm leaves of a row, a later Confirm leaves too
module _ (now later : ℕ) (id : String) (le : now ≤ later) where
  confirms-later : (r : OccRow) → confirms later id (confirm_row now id r) ≡ confirms now id r
  unfolding confirm_row confirmable
  confirms-later r = ground arith

  confirm_row-later :
      (r : OccRow) → confirm_row later id (confirm_row now id r) ≡ confirm_row now id r
  unfolding confirm_row confirmable
  confirm_row-later r = ground arith

  any-later :
      (t : Table) → any (confirms later id) (map (confirm_row now id) t) ≡ any (confirms now id) t
  any-later [] = refl
  any-later (r ∷ t) = ground (arith, any-later t, confirms-later r)

  map-later :
      (t : Table)
      → map (confirm_row later id) (map (confirm_row now id) t) ≡ map (confirm_row now id) t
  map-later [] = refl
  map-later (r ∷ t) = ground (arith, map-later t, confirm_row-later r)

  -- On a database that answers, Confirm is idempotent: repeated at any later time it gives the
  -- same answer and changes nothing.
  confirm_twice :
      (t : Table) → confirm false later id (confirm false now id t).1 ≡ confirm false now id t
  unfolding confirm update_confirmed
  confirm_twice t = ground (arith, any-later t, map-later t)

-- what a released row, or another row of a valid table, leaves free
module _ (t : Table) (r : OccRow) (v : IsValid t) (m : In r t)
    (live : is_live r.status ≡ true) where
  other_row_free :
      (q : OccRow) → In q t → q.id ≢ r.id → claims r.resource_id r.start_at r.end_at q ≡ false
  unfolding claims
  other_row_free q n ne = elim (Bool-cases (is_live q.status && (q.resource_id == r.resource_id))) [
    | inr e ↦ ground arith
    | inl e ↦ ground (
      arith,
      IsValid-Apart t q r v n m ne ((eq_iff q.resource_id r.resource_id).0 (ground arith))
          (ground arith) live,
    )
  ]

  release_row_free :
      (q : OccRow) → In q t → claims r.resource_id r.start_at r.end_at (release_row r.id q) ≡ false
  unfolding release_row
  release_row_free q n = elim (Bool-cases (q.id == r.id)) [
    | inl e ↦ unfold claims in ground arith
    | inr e ↦ rw e (other_row_free q n (λ p. ground (arith, eq_iff q.id r.id, p)))
  ]

  map_release_free :
      any (claims r.resource_id r.start_at r.end_at) (map (release_row r.id) t) ≡ false
  map_release_free =
      not-any (claims r.resource_id r.start_at r.end_at) (map (release_row r.id) t) λ q n.
        let (x, i, e) = map-In (release_row r.id) t n in
        ap (claims r.resource_id r.start_at r.end_at) (sym e) ∙ release_row_free x i

-- On a database that answers, Release of a live claim frees the slot: no row of a valid table
-- claims any part of the released interval.
pub release_reopens :
    (t : Table) (r : OccRow)
    → IsValid t
    → In r t
    → r.id ≢ ""
    → is_live r.status ≡ true
    → is_busy r.resource_id r.start_at r.end_at (release false r.id t).1 ≡ false
unfolding release update_released is_busy
release_reopens t r v m ne live = ground (arith, eq_iff r.id "", map_release_free t r v m live)

release_row_twice :
    (id : String) (r : OccRow) → release_row id (release_row id r) ≡ release_row id r
unfolding release_row
release_row_twice id r = ground arith

map_release_twice :
    (id : String) (t : Table)
    → map (release_row id) (map (release_row id) t) ≡ map (release_row id) t
map_release_twice id [] = refl
map_release_twice id (r ∷ t) = ground (arith, map_release_twice id t, release_row_twice id r)

-- On a database that answers, Release of an id that is not empty succeeds whatever the table
-- holds, and is idempotent.
release_twice :
    (id : String) (t : Table)
    → id ≢ ""
    → ((release false id t).0 ≡ ok tt)
      × (release false id (release false id t).1 ≡ release false id t)
unfolding release update_released
release_twice id t ne = ground (arith, eq_iff id "", map_release_twice id t)

-- On a database that answers, a call that a client repeats changes nothing: Confirm, at any later
-- time, gives its first answer again, and Release of an id that is not empty succeeds each time.
pub repeats_change_nothing :
    (now later : ℕ) (id : String) (t : Table)
    → now ≤ later
    → id ≢ ""
    → (confirm false later id (confirm false now id t).1 ≡ confirm false now id t)
      × ((release false id t).0 ≡ ok tt)
      × (release false id (release false id t).1 ≡ release false id t)
repeats_change_nothing now later id t h ne =
    let (answered, again) = release_twice id t ne in
    (confirm_twice now later id h t, answered, again)
