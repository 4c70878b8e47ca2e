-- ===== src/Occupancy/Kept.antt =====
-- Confirmed claims over a history of statements.
use unified_service_schedule.Common.{
  String, ◌≡◌, ◌≢◌, Option, none, some, arith, eq_iff, In, there, In-map, In-select, ap,
}
use unified_service_schedule.Occupancy.{
  OccRow, confirmed, Table, inserted, insert, delete_expired, hold_expired, update_confirmed,
  confirm_row, confirmable, update_released, release_row,
}
use unified_service_schedule.Occupancy.Valid.{insert-eq}
use unified_service_schedule.Occupancy.Steps.{
  Step, claim, confirm, release, reap, Reach, start, next,
}

-- The id that a statement releases.
abbrev pub released_by : {t u : Table} → Step t u → Option String
released_by (release i) = some i
released_by _ = none

-- No statement of the history releases the id.
abbrev pub NeverReleases : String → {t u : Table} → Reach t u → Type 0
NeverReleases i start = Unit {0}
NeverReleases i (next r st) = NeverReleases i r × (released_by st ≢ some i)

-- The table has the confirmed claim of `q`, with its resource and its interval.
pub record HasClaim (q : OccRow) (t : Table) : Type 0 where
  pub row : OccRow
  pub member : In row t
  pub id : row.id ≡ q.id
  pub resource : row.resource_id ≡ q.resource_id
  pub start_at : row.start_at ≡ q.start_at
  pub end_at : row.end_at ≡ q.end_at
  pub status : row.status ≡ confirmed

insert-HasClaim :
    (q r : OccRow) (t : Table) {u : Table} → insert r t ≡ inserted u → HasClaim q t → HasClaim q u
unfolding insert
insert-HasClaim q r t {u} e h = record {
  row = h.row;
  member = rw (insert-eq r t e) (there h.member);
  id = h.id;
  resource = h.resource;
  start_at = h.start_at;
  end_at = h.end_at;
  status = h.status;
}

Step-HasClaim :
    (q : OccRow) {t u : Table} (st : Step t u)
    → released_by st ≢ some q.id
    → HasClaim q t
    → HasClaim q u
unfolding update_confirmed confirm_row confirmable update_released release_row delete_expired
    hold_expired
Step-HasClaim q (claim r s e) n h = insert-HasClaim q r _ e h
Step-HasClaim q (confirm now i) n h = record {
  row = confirm_row now i h.row;
  member = In-map (confirm_row now i) h.member;
  id = ground (arith, h.id);
  resource = ground (arith, h.resource);
  start_at = ground (arith, h.start_at);
  end_at = ground (arith, h.end_at);
  status = ground (arith, h.status);
}
Step-HasClaim q (release i) n h = record {
  row = release_row i h.row;
  member = In-map (release_row i) h.member;
  id = ground (arith, h.id);
  resource = ground (arith, h.resource);
  start_at = ground (arith, h.start_at);
  end_at = ground (arith, h.end_at);
  status = ground (arith, h.status, h.id, eq_iff h.row.id i, ap (λ (s : String). some s) h.id);
}
Step-HasClaim q {t} (reap now) n h = record {
  row = h.row;
  member = In-select _ t (ground (arith, h.status)) h.member;
  id = h.id;
  resource = h.resource;
  start_at = h.start_at;
  end_at = h.end_at;
  status = h.status;
}

-- Through any history in which no Release names it, a confirmed claim keeps its resource and its
-- interval.
pub confirmed_kept :
    (q : OccRow) {t u : Table} (r : Reach t u) → NeverReleases q.id r → HasClaim q t → HasClaim q u
confirmed_kept q start n h = h
confirmed_kept q (next r st) n h = Step-HasClaim q st n.1 (confirmed_kept q r n.0 h)
