-- ===== src/Booking/Store/Client.antt =====
-- The store on a database that answers, as the service's client of it.
use unified_service_schedule.Common.{ℕ, suc, String, ◌≡◌, false, arith, ok}
use unified_service_schedule.Booking.Types.{AppointmentRow}
use unified_service_schedule.Booking.Clients.{StoreClient}
use unified_service_schedule.Booking.Laws.{InsertsAsGiven}
use unified_service_schedule.Booking.Store as Store
use unified_service_schedule.Booking.Store.{Rows, insert_held, returned_row}

-- The table, SQL's clock, which is the service's too, and a counter behind the ids of NewUUID.
pub record Db : Type 0 where
  pub rows : Rows
  pub clock : ℕ
  pub made : ℕ

abbrev with_rows : {A : Type 0} → Db → A × Rows → A × Db
with_rows db (a, t) = (a, record { rows = t; clock = db.clock; made = suc db.made })

module _ (new_uuid : ℕ → String) where
  unfoldable pub client : StoreClient Db
  client = record {
    insert_held = λ r db.
        with_rows db (Store.insert_held false (new_uuid db.made) db.clock db.clock r db.rows);
    get = λ id db. (Store.get false id db.rows, db);
    promote = λ id key fp db. with_rows db (Store.promote false id key fp db.rows);
    get_confirmed_by_idempotency_key =
        λ key db. (Store.get_confirmed_by_idempotency_key false key db.rows, db);
    cancel = λ id db. with_rows db (Store.cancel false id db.rows);
    sweep_batch = λ limit db. with_rows db (Store.sweep_batch false limit db.clock db.rows);
    list_cancelled_needing_release =
        λ limit db. (Store.list_cancelled_needing_release false limit db.rows, db);
    clear_occupation_ids = λ id db. with_rows db (Store.clear_occupation_ids false id db.rows);
  }

  insert_held-as_given :
      (uuid : String) (now clock : ℕ) (r : AppointmentRow) (t : Rows) (row : AppointmentRow)
      → (insert_held false uuid now clock r t).0 ≡ ok row
      → row ≡ returned_row uuid clock r
  unfolding insert_held
  insert_held-as_given uuid now clock r t row h = ground arith

  -- The store inserts rows as they are given.
  pub client-InsertsAsGiven : InsertsAsGiven client
  unfolding client returned_row
  client-InsertsAsGiven = record {
    as_given = λ r db row h.
        let e = insert_held-as_given (new_uuid db.made) db.clock db.clock r db.rows row h in
        (
          ground (arith, e),
          ground (arith, e),
          ground (arith, e),
          ground (arith, e),
          ground (arith, e),
        );
  }
