-- ===== src/Occupancy/Steps.antt =====
-- The histories of an occupation table: any interleaving of the statements of any number of
-- servers, each statement atomic.
use unified_service_schedule.Common.{
  ℕ, ◌≤◌, ◌<◌, String, ◌≡◌, ◌≢◌, ◌⊎◌, true, false, [], ◌∷◌, arith, sym, ap, ◌∙◌, eq_iff, In, here,
  there,
}
use unified_service_schedule.Occupancy.{
  OccRow, held, Table, is_live, claims, is_busy, inserted, insert, delete_expired, update_confirmed,
  update_released,
}
use unified_service_schedule.Occupancy.Valid.{
  IsValid, insert-IsValid, delete_expired-IsValid, update_confirmed-IsValid,
  update_released-IsValid,
}

-- One statement of a server, or of the reaper.
pub data Step (t : Table) : Table → Type 0 where
  claim : (r : OccRow) {u : Table} → r.status ≡ held → insert r t ≡ inserted u → Step t u
  confirm : (now : ℕ) (i : String) → Step t (update_confirmed now i t).1
  release : (i : String) → Step t (update_released i t)
  reap : (now : ℕ) → Step t (delete_expired now t)

pub data Reach (t : Table) : Table → Type 0 where
  start : Reach t t
  next : {u w : Table} → Reach t u → Step u w → Reach t w

pub Reach-trans : {s t u : Table} → Reach s t → Reach t u → Reach s u
Reach-trans p start = p
Reach-trans p (next q st) = next (Reach-trans p q) st

pub Step-IsValid : {t u : Table} → Step t u → IsValid t → IsValid u
Step-IsValid {t} (claim r h e) v = insert-IsValid r t v e
Step-IsValid {t} (confirm now i) v = update_confirmed-IsValid now i t v
Step-IsValid {t} (release i) v = update_released-IsValid i t v
Step-IsValid {t} (reap now) v = delete_expired-IsValid now t v

pub Reach-IsValid : {t u : Table} → Reach t u → IsValid t → IsValid u
Reach-IsValid start v = v
Reach-IsValid (next r st) v = Step-IsValid st (Reach-IsValid r v)

-- The first of two intervals ends before the other starts.
abbrev pub Apart : OccRow → OccRow → Type 0
Apart q r = (q.end_at ≤ r.start_at) ⊎ (r.end_at ≤ q.start_at)

pub In-proper : (t : Table) (q : OccRow) → IsValid t → In q t → q.start_at < q.end_at
In-proper [] q v m = elim m [ ]
In-proper (x ∷ t) q v (here p) = ground (arith, p)
In-proper (x ∷ t) q v (there m) = In-proper t q v.3 m

not_busy-Apart :
    (r q : OccRow) (t : Table)
    → is_busy r.resource_id r.start_at r.end_at t ≡ false
    → In q t
    → q.resource_id ≡ r.resource_id
    → is_live q.status ≡ true
    → q.start_at < q.end_at
    → r.start_at < r.end_at
    → Apart q r
unfolding is_busy claims
not_busy-Apart r q [] h m same live proper proper' = elim m [ ]
not_busy-Apart r q (x ∷ t) h (here p) same live proper proper' =
    ground (arith, p, eq_iff x.resource_id r.resource_id)
not_busy-Apart r q (x ∷ t) h (there m) same live proper proper' =
    not_busy-Apart r q t (ground arith) m same live proper proper'

-- In a valid table two live claims of one resource do not meet.
pub IsValid-Apart :
    (t : Table) (q r : OccRow)
    → IsValid t
    → In q t
    → In r t
    → q.id ≢ r.id
    → q.resource_id ≡ r.resource_id
    → is_live q.status ≡ true
    → is_live r.status ≡ true
    → Apart q r
IsValid-Apart [] q r v m n ne same lq lr = elim m [ ]
IsValid-Apart (x ∷ t) q r v (here p) (here p') ne same lq lr =
    absurd (ne (ap (λ (y : OccRow). y.id) (sym p ∙ p')))
IsValid-Apart (x ∷ t) q r v (here p) (there n) ne same lq lr = ground (
  arith,
  not_busy-Apart q r t (ground (arith, p)) n (sym same) lr (In-proper t r v.3 n)
      (In-proper (x ∷ t) q v (here p)),
)
IsValid-Apart (x ∷ t) q r v (there m) (here p') ne same lq lr =
    not_busy-Apart r q t (ground (arith, p')) m same lq (In-proper t q v.3 m)
      (In-proper (x ∷ t) r v (here p'))
IsValid-Apart (x ∷ t) q r v (there m) (there n) ne same lq lr =
    IsValid-Apart t q r v.3 m n ne same lq lr

-- In every history that starts from an empty table, two different live claims of one resource do
-- not meet.
pub no_double_booking :
    {t : Table} (q r : OccRow)
    → Reach [] t
    → In q t
    → In r t
    → q.id ≢ r.id
    → q.resource_id ≡ r.resource_id
    → is_live q.status ≡ true
    → is_live r.status ≡ true
    → Apart q r
no_double_booking {t} q r h m n ne same lq lr =
    IsValid-Apart t q r (Reach-IsValid h tt) m n ne same lq lr
