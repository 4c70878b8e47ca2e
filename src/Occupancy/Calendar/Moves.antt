-- ===== src/Occupancy/Calendar/Moves.antt =====
-- The statements of the servers on the calendar.
use unified_service_schedule.Common.{
  ℕ, ◌≤◌, ◌<◌, String, ◌≡◌, ◌≢◌, refl, subst, ap, ◌∙◌, fun_ext, Bool, true, false, ◌&&◌, none, some,
  [], ◌∷◌, map, any, arith, ◌==◌, eq_iff, eq_refl, ◌↔◌, In, here, there, any-true-In, any-In,
  Bool-cases, inl, inr,
}
use unified_service_schedule.Occupancy.{
  OccRow, held, Table, claims, is_busy, inserted, insert, hold_expired, delete_expired,
  update_confirmed, confirm_row, confirmable, update_released, release_row,
}
use unified_service_schedule.Occupancy.Valid.{IsValid, insert-eq, same_row}
use unified_service_schedule.Occupancy.Steps.{
  Step, claim, confirm, release, reap, Reach, Reach-IsValid,
}
use unified_service_schedule.Occupancy.Steps as Steps
use unified_service_schedule.Occupancy.Calendar.{
  covers, calendar, book, drop, is_due, due, after_step, replay, IsFree, TakesFree,
}

-- Where no row claims any part of an interval, the calendar is free.
pub not_busy-free :
    (resource : String) (s e x : ℕ) (t : Table)
    → is_busy resource s e t ≡ false
    → s ≤ x
    → x < e
    → calendar t resource x ≡ none
unfolding is_busy claims calendar
not_busy-free resource s e x [] h a b = refl
not_busy-free resource s e x (r ∷ t) h a b = ground (arith, not_busy-free resource s e x t)

pub free-not_busy :
    (resource : String) (s e : ℕ) (t : Table)
    → s < e
    → ((x : ℕ) → s ≤ x → x < e → calendar t resource x ≡ none)
    → is_busy resource s e t ≡ false
unfolding is_busy claims calendar
free-not_busy resource s e [] lt h = refl
free-not_busy resource s e (r ∷ t) lt h =
    let rest = free-not_busy resource s e t lt (λ x a b. ground (arith, h x a b)) in
    ground (arith, rest, h s, h r.start_at)

-- A row that is not there has no instant.
calendar-new :
    (id resource : String) (x : ℕ) (t : Table)
    → any (λ s. s.id == id) t ≡ false
    → calendar t resource x ≢ some id
unfolding calendar
calendar-new id resource x [] h = λ p. cc
calendar-new id resource x (r ∷ t) h =
    λ p. ground (arith, eq_iff r.id id, calendar-new id resource x t)

-- In a valid table the row that covers an instant is the only one.
covers-only :
    (resource : String) (x : ℕ) (r : OccRow) (t : Table)
    → IsValid (r ∷ t)
    → covers resource x r ≡ true
    → calendar t resource x ≡ none
covers-only resource x r t v c =
    not_busy-free resource r.start_at r.end_at x t
      (ground (arith, v.2, eq_iff r.resource_id resource)) (ground arith) (ground arith)

calendar-confirm :
    (now : ℕ) (id resource : String) (x : ℕ) (t : Table)
    → calendar (map (confirm_row now id) t) resource x ≡ calendar t resource x
unfolding calendar confirm_row confirmable
calendar-confirm now id resource x [] = refl
calendar-confirm now id resource x (r ∷ t) = ground (arith, calendar-confirm now id resource x t)

calendar-release :
    (id resource : String) (x : ℕ) (t : Table)
    → IsValid t
    → calendar (map (release_row id) t) resource x ≡ drop (λ i. i == id) (calendar t) resource x
unfolding calendar release_row
calendar-release id resource x [] v = refl
calendar-release id resource x (r ∷ t) v =
    ground (arith, calendar-release id resource x t v.3, covers-only resource x r t v)

-- `p` tells the rows that have expired by their ids.
calendar-expire :
    (now : ℕ) (p : String → Bool) (resource : String) (x : ℕ) (t : Table)
    → IsValid t
    → ((r : OccRow) → In r t → p r.id ≡ hold_expired now r.status r.hold_expires_at)
    → calendar (delete_expired now t) resource x ≡ drop p (calendar t) resource x
unfolding calendar delete_expired
calendar-expire now p resource x [] v agree = refl
calendar-expire now p resource x (r ∷ t) v agree = ground (
  arith,
  calendar-expire now p resource x t v.3 (λ q m. agree q (there m)),
  agree r (here refl),
  covers-only resource x r t v,
)

hold_expired-is_due :
    (now : ℕ) (r : OccRow) → hold_expired now r.status r.hold_expires_at ≡ is_due now r
unfolding hold_expired is_due
hold_expired-is_due now r = ground arith

due-agree :
    (now : ℕ) (t : Table) (r : OccRow)
    → IsValid t
    → In r t
    → due now t r.id ≡ hold_expired now r.status r.hold_expires_at
due-agree now t r v m =
    let same = hold_expired-is_due now r in
    elim (Bool-cases (due now t r.id)) [
      | inl e ↦
          let (q, n, h) = any-true-In _ t e in
          let one : q ≡ r = same_row t q r v n m ((eq_iff q.id r.id).0 (ground arith)) in
          ground (arith, e, h, one, same)
      | inr e ↦
          let no : ((r.id == r.id) && is_due now r) ≡ false =
            any-In (λ q. (q.id == r.id) && is_due now q) t e m in
          let mine = eq_refl r.id in ground (arith, e, no, mine, same)
    ]

-- An insertion that is accepted books its interval, which is free.
insert-book :
    (r : OccRow) (t : Table) {u : Table}
    → r.status ≡ held
    → insert r t ≡ inserted u
    → calendar u ≡ book r.id r.resource_id r.start_at r.end_at (calendar t)
unfolding calendar
insert-book r t {u} h e =
    ap calendar (insert-eq r t e) ∙ fun_ext (λ resource. fun_ext (λ x. ground (arith, h)))

insert-IsFree :
    (r : OccRow) (t : Table) {u : Table}
    → r.status ≡ held
    → insert r t ≡ inserted u
    → (r.start_at < r.end_at)
      × ((x : ℕ) → r.start_at ≤ x → x < r.end_at → calendar t r.resource_id x ≡ none)
      × ((resource : String) (x : ℕ) → calendar t resource x ≢ some r.id)
unfolding insert
insert-IsFree r t {u} h e =
    let new : any (λ s. s.id == r.id) t ≡ false = ground arith in
    let free : is_busy r.resource_id r.start_at r.end_at t ≡ false = ground arith in
    (
      ground arith,
      (λ x. not_busy-free r.resource_id r.start_at r.end_at x t free),
      (λ resource x. calendar-new r.id resource x t new),
    )

Step-after_step :
    {t u : Table} (st : Step t u) → IsValid t → calendar u ≡ after_step st (calendar t)
unfolding update_confirmed update_released after_step
Step-after_step {t} (claim r h e) v = insert-book r t h e
Step-after_step {t} (confirm now i) v =
    fun_ext (λ resource. fun_ext (λ x. calendar-confirm now i resource x t))
Step-after_step {t} (release i) v =
    fun_ext (λ resource. fun_ext (λ x. calendar-release i resource x t v))
Step-after_step {t} (reap now) v = fun_ext (λ resource.
    fun_ext (λ x. calendar-expire now (due now t) resource x t v (λ r m. due-agree now t r v m)))

Step-IsFree : {t u : Table} (st : Step t u) → IsFree st (calendar t)
unfolding IsFree
Step-IsFree {t} (claim r h e) = insert-IsFree r t h e
Step-IsFree {t} (confirm now i) = tt
Step-IsFree {t} (release i) = tt
Step-IsFree {t} (reap now) = tt

Reach-calendar : {t : Table} (h : Reach [] t) → calendar t ≡ replay h
unfolding calendar replay
Reach-calendar Steps.start = refl
Reach-calendar (Steps.next h st) =
    Step-after_step st (Reach-IsValid h tt) ∙ ap (after_step st) (Reach-calendar h)

Reach-TakesFree : {t : Table} (h : Reach [] t) → TakesFree h
unfolding TakesFree
Reach-TakesFree Steps.start = tt
Reach-TakesFree (Steps.next h st) =
    (Reach-TakesFree h, subst (IsFree st) (Reach-calendar h) (Step-IsFree st))

-- From an empty table, the calendar of the table is the one that the history of the statements of
-- any number of servers comes to: claims book, releases free their claim, the reaper frees the
-- holds whose time is over, and confirmations change nothing; and each claim of the history took
-- only instants that were free.
pub Reach-replay : {t : Table} (h : Reach [] t) → (calendar t ≡ replay h) × TakesFree h
Reach-replay h = (Reach-calendar h, Reach-TakesFree h)

-- In a table, a new hold is accepted exactly if its interval is proper, its id is new and the
-- calendar is free at each of its instants.
pub insert_accepts :
    (r : OccRow) (t : Table)
    → r.status ≡ held
    → (insert r t ≡ inserted (r ∷ t)) ↔ (
        (r.start_at < r.end_at)
        × (any (λ s. s.id == r.id) t ≡ false)
        × ((x : ℕ) → r.start_at ≤ x → x < r.end_at → calendar t r.resource_id x ≡ none))
unfolding insert
insert_accepts r t h = (
  (λ e.
      let free : is_busy r.resource_id r.start_at r.end_at t ≡ false = ground arith in
      (
        ground arith,
        ground arith,
        (λ x. not_busy-free r.resource_id r.start_at r.end_at x t free),
      )),
  (λ (lt, new, free).
      let idle = free-not_busy r.resource_id r.start_at r.end_at t lt free in ground (arith, idle)),
)
