-- ===== src/Catalog/Faults.antt =====
-- The errors of the database while a listing is read.
use unified_service_schedule.Common.{
  ℕ, zero, suc, String, ◌≡◌, ◌⊎◌, inl, inr, refl, ap, Bool, true, false, Option, none, some, List,
  [], ◌∷◌, map, take, In, here, there, any, ◌==◌, Bool-cases,
}
use unified_service_schedule.Mux.{Method, found, no_method, no_path, Found, lookup}
use unified_service_schedule.Catalog.{
  Tables, Joined, Groups, no_groups, Fault, query_fails, scan_fails, rows_fail, no_fault, spoilt,
  query, scan_joined, add_row,
}
use unified_service_schedule.Catalog.Server.{
  Reply, failed, service_types, vehicles, Faults, Endpoint, on_dealerships, on_service_types,
  on_vehicles, on_healthz, after_joined, after_types, after_vehicles, scan_rows, read_rows,
  joined_rows, service_type_rows, vehicle_rows, list_dealerships, list_service_types,
  query_vehicles, list_customer_vehicles, handle, reply_found, serve, routes,
}

spoilt-cases :
    {A : Type 0} (n : ℕ) (xs : List A) → (spoilt n xs ≡ map some xs) ⊎ In none (spoilt n xs)
unfolding spoilt
spoilt-cases n [] = inl refl
spoilt-cases zero (x ∷ xs) = inr (here refl)
spoilt-cases (suc n) (x ∷ xs) = elim (spoilt-cases n xs) [
  | inl e ↦ inl (ap (λ l. some x ∷ l) e)
  | inr m ↦ inr (there m)
]

scan_joined-none :
    (rows : List (Option Joined)) (g : Groups) → In none rows → scan_joined rows g ≡ none
unfolding scan_joined
scan_joined-none [] g m = elim m [ ]
scan_joined-none (none ∷ rows) g m = refl
scan_joined-none (some r ∷ rows) g (here e) = cc
scan_joined-none (some r ∷ rows) g (there m) = scan_joined-none rows (add_row r g) m

scan_rows-none : {A : Type 0} (rows : List (Option A)) → In none rows → scan_rows rows ≡ none
unfolding scan_rows
scan_rows-none [] m = elim m [ ]
scan_rows-none (none ∷ rows) m = refl
scan_rows-none (some r ∷ rows) (here e) = cc
scan_rows-none (some r ∷ rows) (there m) = rw (scan_rows-none rows m) refl

abbrev pub no_faults : Faults
no_faults = record { listing = no_fault; customer_fails = false }

-- The reply is the one that is due, or an error 500.
abbrev pub WholeOr500 : Reply → Reply → Type 0
WholeOr500 r whole = (r ≡ whole) ⊎ ((message : String) × (r ≡ failed 500 message))

after_joined-500 :
    (o : Option Groups) → (message : String) × (after_joined true o ≡ failed 500 message)
unfolding after_joined
after_joined-500 none = ("scan dealership", refl)
after_joined-500 (some g) = ("scan dealerships", refl)

-- What follows the loop over the rows answers 500 where a row could not be read.
abbrev Refuses : {A : Type 0} → (Bool → Option (List A) → Reply) → Type 0
Refuses {A} after =
    ((b : Bool) → (message : String) × (after b none ≡ failed 500 message))
    × ((out : List A) → (message : String) × (after true (some out) ≡ failed 500 message))

after_types-Refuses : Refuses after_types
unfolding after_types
after_types-Refuses = ((λ b. ("scan service type", refl)), (λ out. ("scan service types", refl)))

after_vehicles-Refuses : Refuses after_vehicles
unfolding after_vehicles
after_vehicles-Refuses = ((λ b. ("scan vehicle", refl)), (λ out. ("scan vehicles", refl)))

scan_rows-map : {A : Type 0} (xs : List A) → scan_rows (map some xs) ≡ some xs
unfolding scan_rows
scan_rows-map [] = refl
scan_rows-map (x ∷ xs) = rw (scan_rows-map xs) refl

read_rows-faults :
    {A : Type 0} (message : String) (after : Bool → Option (List A) → Reply) (xs : List A)
    (fault : Fault)
    → Refuses after
    → WholeOr500
        (read_rows message after (query fault xs))
        (read_rows message after (query no_fault xs))
unfolding read_rows query
read_rows-faults message after xs query_fails h = inr (message, refl)
read_rows-faults message after xs (scan_fails n) (unread, broken) = elim (spoilt-cases n xs) [
  | inl e ↦ inl (rw e refl)
  | inr m ↦ inr (rw (scan_rows-none (spoilt n xs) m) (unread false))
]
read_rows-faults message after xs (rows_fail n) (unread, broken) =
    inr (rw (scan_rows-map (take n xs)) (broken (take n xs)))
read_rows-faults message after xs no_fault h = inl refl

module _ (text_le : String → String → Bool) (db : Tables) where
  list_dealerships-faults :
      (fault : Fault)
      → WholeOr500 (list_dealerships text_le db fault) (list_dealerships text_le db no_fault)
  unfolding list_dealerships query
  list_dealerships-faults query_fails = inr ("query dealerships", refl)
  list_dealerships-faults (scan_fails n) = elim (spoilt-cases n (joined_rows text_le db)) [
    | inl e ↦ inl (rw e refl)
    | inr m ↦
        inr ("scan dealership", unfold after_joined in rw (scan_joined-none _ no_groups m) refl)
  ]
  list_dealerships-faults (rows_fail n) = inr (after_joined-500 _)
  list_dealerships-faults no_fault = inl refl

  vehicles-faults :
      (faults : Faults) (id : String)
      → WholeOr500
          (list_customer_vehicles text_le db faults id)
          (list_customer_vehicles text_le db no_faults id)
  unfolding list_customer_vehicles query_vehicles
  vehicles-faults faults id = elim (Bool-cases faults.customer_fails) [
    | inl e ↦ inr ("query customer", rw e refl)
    | inr e ↦ rw e (elim (Bool-cases (any (λ c. c == id) db.customer)) [
      | inr n ↦ inl (rw n refl)
      | inl k ↦ rw k (
          read_rows-faults "query vehicles" after_vehicles (vehicle_rows text_le db id)
            faults.listing after_vehicles-Refuses)
    ])
  ]

  handle-faults :
      (faults : Faults) (e : Endpoint) (vs : List String)
      → WholeOr500 (handle text_le db faults e vs) (handle text_le db no_faults e vs)
  unfolding handle list_service_types
  handle-faults faults on_dealerships vs = list_dealerships-faults faults.listing
  handle-faults faults on_service_types vs =
      read_rows-faults "query service types" after_types (service_type_rows text_le db)
        faults.listing after_types-Refuses
  handle-faults faults on_vehicles [] = vehicles-faults faults ""
  handle-faults faults on_vehicles (v ∷ vs) = vehicles-faults faults v
  handle-faults faults on_healthz vs = inl refl

  found-faults :
      (faults : Faults) (f : Found Endpoint)
      → WholeOr500 (reply_found text_le db faults f) (reply_found text_le db no_faults f)
  unfolding reply_found
  found-faults faults (found h vs) = handle-faults faults h vs
  found-faults faults no_method = inl refl
  found-faults faults no_path = inl refl

  -- Whatever the database does while a request is served, the answer is the one that is due without
  -- errors, or an error 500: no listing is cut short.
  pub serve-WholeOr500 :
      (faults : Faults) (m : Method) (path : List String)
      → WholeOr500 (serve text_le db faults m path) (serve text_le db no_faults m path)
  unfolding serve
  serve-WholeOr500 faults m path = found-faults faults (lookup routes m path)

  -- The listings without errors.
  pub list_service_types-rows :
      list_service_types text_le db no_fault ≡ service_types (service_type_rows text_le db)
  unfolding list_service_types read_rows query after_types
  list_service_types-rows = rw (scan_rows-map (service_type_rows text_le db)) refl

  pub query_vehicles-rows :
      (id : String) → query_vehicles text_le db no_fault id ≡ vehicles (vehicle_rows text_le db id)
  unfolding query_vehicles read_rows query after_vehicles
  query_vehicles-rows id = rw (scan_rows-map (vehicle_rows text_le db id)) refl

  pub vehicles_of_customer :
      (id : String)
      → any (λ c. c == id) db.customer ≡ true
      → list_customer_vehicles text_le db no_faults id ≡ vehicles (vehicle_rows text_le db id)
  unfolding list_customer_vehicles
  vehicles_of_customer id h = rw h (query_vehicles-rows id)

  pub no_customer :
      (id : String)
      → any (λ c. c == id) db.customer ≡ false
      → list_customer_vehicles text_le db no_faults id ≡ failed 404 "customer not found"
  unfolding list_customer_vehicles
  no_customer id h = rw h refl
