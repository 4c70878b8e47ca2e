-- ===== src/Booking/Laws.antt =====
-- What the booking service relies on of the components that it calls. Technician.Client,
-- Bay.Client and Booking.Store.Client are about these laws for the servers of this repository.
use unified_service_schedule.Common.{
  ℕ, ◌<◌, ◌≤◌, String, ◌≡◌, ◌≢◌, Bool, true, false, some, Result, ok, err,
}
use unified_service_schedule.Rpc.{Code}
use unified_service_schedule.Technician.Server as TechServer
use unified_service_schedule.Booking.Types.{held, AppointmentRow}
use unified_service_schedule.Booking.Clients.{TechClient, StoreClient}

-- An allocator seen as the set of its live claims: what answers has been done, and what reports an
-- error has claimed nothing.
pub record Accounts {A Req Resp : Type 0} (reserve : Req → A → Result Code Resp × A)
    (release : String → A → Result Code (Unit {0}) × A) (claim_of : Resp → String) : Type 0 where
  pub live : A → String → Bool
  pub refused :
      (q : Req) (a : A) (c : Code) (x : String)
      → (reserve q a).0 ≡ err c
      → live (reserve q a).1 x ≡ true
      → live a x ≡ true
  pub granted :
      (q : Req) (a : A) (r : Resp) (x : String)
      → (reserve q a).0 ≡ ok r
      → x ≢ claim_of r
      → live (reserve q a).1 x ≡ true
      → live a x ≡ true
  pub named : (q : Req) (a : A) (r : Resp) → (reserve q a).0 ≡ ok r → claim_of r ≢ ""
  pub dropped :
      (a : A) (x : String) → x ≢ "" → (release x a).0 ≡ ok tt → live (release x a).1 x ≡ false
  pub others : (a : A) (x y : String) → live (release x a).1 y ≡ true → live a y ≡ true

-- … whose Release calls all go through.
pub record ReliableAccounts {A Req Resp : Type 0} (reserve : Req → A → Result Code Resp × A)
    (release : String → A → Result Code (Unit {0}) × A) (claim_of : Resp → String) : Type 0 where
  pub accounts : Accounts reserve release claim_of
  pub open accounts use *
  pub answers : (a : A) (x : String) → x ≢ "" → (release x a).0 ≡ ok tt

-- … and whose Confirm calls make no claim live.
pub record ConfirmingAccounts {A Req Resp : Type 0} (reserve : Req → A → Result Code Resp × A)
    (confirm release : String → A → Result Code (Unit {0}) × A) (claim_of : Resp → String)
    : Type 0 where
  pub reliable : ReliableAccounts reserve release claim_of
  pub confirms :
      (a : A) (x y : String) → reliable.live (confirm x a).1 y ≡ true → reliable.live a y ≡ true

-- A granted technician ends after the start, and by the close that was asked for.
pub record EndsInTime {T : Type 0} (tech : TechClient T) : Type 0 where
  pub in_time :
      (q : TechServer.ReserveRequest) (t : T) (r : TechServer.ReserveResponse) (s e : ℕ)
      → (tech.reserve q t).0 ≡ ok r
      → q.start ≡ some s
      → q.latest_end ≡ some e
      → (s < r.end) × (r.end ≤ e)

-- An inserted row is HELD, and as it was given.
pub record InsertsAsGiven {S : Type 0} (store : StoreClient S) : Type 0 where
  pub as_given :
      (r : AppointmentRow) (s : S) (row : AppointmentRow)
      → (store.insert_held r s).0 ≡ ok row
      → (row.status ≡ held)
        × (row.start_at ≡ r.start_at)
        × (row.end_at ≡ r.end_at)
        × (row.tech_occupation_id ≡ r.tech_occupation_id)
        × (row.bay_occupation_id ≡ r.bay_occupation_id)
