-- ===== src/Booking/CatalogClient/Snapshots.antt =====
-- What a snapshot of the Catalog vouches for.
use unified_service_schedule.Common.{
  ℕ, String, ◌≡◌, ◌≢◌, ◌⊎◌, inl, inr, refl, ap, ◌++◌, Bool, false, Option, none, some, List, [],
  ◌∷◌, ◌==◌, eq_iff, eqb, if◌then◌else◌, arith, any, any-true-In, In, here, there, ok, Option-cases,
  Bool-cases, Result-cases,
}
use Prim.Native.String.{◌++◌ as append}
use unified_service_schedule.Booking.Hours.{OpeningHours, Snapshot}
use unified_service_schedule.Booking.CatalogClient.{
  DealershipDto, ServiceTypeDto, VehicleDto, Response, Http, hours_map, find_dealer, get,
  find_dealership, check_service_type, vehicles_of, check_vehicle, snapshot,
}

find_dealer-In :
    (id : String) (ds : List DealershipDto) (d : DealershipDto)
    → find_dealer id ds ≡ some d
    → In d ds × (d.id ≡ id)
unfolding find_dealer
find_dealer-In id [] d h = cc
find_dealer-In id (x ∷ ds) d h = elim (Bool-cases (x.id == id)) [
  | inl e ↦
      let same : x ≡ d = ground (arith, e) in (here same, ground (arith, e, same, eq_iff x.id id))
  | inr e ↦ let (m, n) = find_dealer-In id ds d (ground (arith, e)) in (there m, n)
]

-- the hours of a day come from the list, or from the map before it
pub hours_map-In :
    (hs : List OpeningHours) (m : ℕ → Option OpeningHours) (day : ℕ) (h : OpeningHours)
    → hours_map hs m day ≡ some h
    → (In h hs × (h.weekday ≡ day)) ⊎ (m day ≡ some h)
unfolding hours_map
hours_map-In [] m day h e = inr e
hours_map-In (x ∷ hs) m day h e = elim (hours_map-In hs _ day h e) [
  | inl (i, w) ↦ inl (there i, w)
  | inr k ↦ elim (Bool-cases (eqb x.weekday day)) [
    | inl q ↦ let same : x ≡ h = ground (arith, k, q) in inl (here same, ground (arith, q, same))
    | inr q ↦ inr (ground (arith, k, q))
  ]
]

-- The entry is the last of the list for the day.
abbrev IsLast : ℕ → List OpeningHours → OpeningHours → Type 0
IsLast day hs h =
    (before after : List OpeningHours) × (hs ≡ before ++ (h ∷ after))
    × (h.weekday ≡ day)
    × ((x : OpeningHours) → In x after → x.weekday ≢ day)

abbrev HasNone : ℕ → List OpeningHours → Type 0
HasNone day hs = (x : OpeningHours) → In x hs → x.weekday ≢ day

-- What a list gives for a day: the last of its entries for the day, and nothing if it has none.
abbrev pub Gives : ℕ → List OpeningHours → Option OpeningHours → Type 0
Gives day hs none = HasNone day hs
Gives day hs (some h) = IsLast day hs h

HasNone-more :
    (x : OpeningHours) (hs : List OpeningHours) (day : ℕ)
    → eqb x.weekday day ≡ false
    → HasNone day hs
    → HasNone day (x ∷ hs)
HasNone-more x hs day q lacks =
    λ y m. elim m [ here p ↦ λ w. ground (arith, p) | there n ↦ lacks y n ]

hours_map_cases :
    (hs : List OpeningHours) (m : ℕ → Option OpeningHours) (day : ℕ)
    → ((h : OpeningHours) × (hours_map hs m day ≡ some h) × IsLast day hs h)
      ⊎ ((hours_map hs m day ≡ m day) × HasNone day hs)
unfolding hours_map
hours_map_cases [] m day = inr (refl, (λ x n. elim n [ ]))
hours_map_cases (x ∷ hs) m day =
    elim (hours_map_cases hs (λ d. if eqb x.weekday d then some x else m d) day) [
      | inl (h, e, (before, after, same, w, lacks)) ↦
          inl (h, e, (x ∷ before, after, ap (λ l. x ∷ l) same, w, lacks))
      | inr (e, lacks) ↦ elim (Bool-cases (eqb x.weekday day)) [
        | inl q ↦ inl (x, ground (arith, e, q), ([], hs, refl, ground (arith, q), lacks))
        | inr q ↦ inr (ground (arith, e, q), HasNone-more x hs day q lacks)
      ]
    ]

hours_map-Gives : (hs : List OpeningHours) (day : ℕ) → Gives day hs (hours_map hs (λ _. none) day)
hours_map-Gives hs day = elim (hours_map_cases hs (λ _. none) day) [
  | inl (h, e, last) ↦ rw e last
  | inr (e, lacks) ↦ rw e lacks
]

module _ (http : Http) where
  -- The Catalog lists the dealership, with its zone and, for each day, the hours of the snapshot,
  -- lists the service type, and lists the vehicle among the customer's.
  pub record Vouched (dealership service customer vehicle : String) (snap : Snapshot) : Type 0 where
    pub dealers_body : List ℕ
    pub dealers : List DealershipDto
    pub dealers_got : get http "/dealerships" ≡ some dealers_body
    pub dealers_read : http.unmarshal_dealers dealers_body ≡ some dealers
    pub dealer : DealershipDto
    pub listed : In dealer dealers
    pub asked : dealer.id ≡ dealership
    pub id : snap.dealership_id ≡ dealership
    pub timezone : snap.timezone ≡ dealer.timezone
    pub hours : (day : ℕ) → Gives day dealer.opening_hours (snap.opening_hours day)
    pub types_body : List ℕ
    pub types : List ServiceTypeDto
    pub types_got : get http "/service-types" ≡ some types_body
    pub types_read : http.unmarshal_types types_body ≡ some types
    pub service_type : ServiceTypeDto
    pub service_listed : In service_type types
    pub service_asked : service_type.id ≡ service
    pub vehicles_answer : Response
    pub vehicles : List VehicleDto
    pub vehicles_got :
        http.request (append (append "/customers/" customer) "/vehicles") ≡ some vehicles_answer
    pub vehicles_found : vehicles_answer.status ≡ 200
    pub vehicles_read : http.decode_vehicles vehicles_answer.body ≡ some vehicles
    pub car : VehicleDto
    pub car_listed : In car vehicles
    pub car_asked : car.id ≡ vehicle

  -- what the three answers make
  abbrev answered : DealershipDto → Bool → Bool → Snapshot
  answered d s v = record {
    dealership_id = d.id;
    timezone = d.timezone;
    opening_hours = hours_map d.opening_hours (λ _. none);
    service_type_ok = s;
    vehicle_belongs = v;
  }

  dealership_found :
      (id : String) (d : DealershipDto)
      → find_dealership http id ≡ ok d
      → (body : List ℕ) × (dealers : List DealershipDto) × (get http "/dealerships" ≡ some body)
        × (http.unmarshal_dealers body ≡ some dealers)
        × In d dealers
        × (d.id ≡ id)
  unfolding find_dealership
  dealership_found id d h = elim (Option-cases (get http "/dealerships")) [
    | inl e ↦ absurd (ground (arith, e))
    | inr (body, e) ↦ elim (Option-cases (http.unmarshal_dealers body)) [
      | inl f ↦ absurd (ground (arith, e, f))
      | inr (dealers, f) ↦ elim (Option-cases (find_dealer id dealers)) [
        | inl g ↦ absurd (ground (arith, e, f, g))
        | inr (x, g) ↦
            let same : x ≡ d = ground (arith, e, f, g) in
            let (m, n) = find_dealer-In id dealers d (ground (arith, g, same)) in
            (body, dealers, e, f, m, n)
      ]
    ]
  ]

  service_found :
      (id : String) (b : Bool)
      → check_service_type http id ≡ ok b
      → (body : List ℕ) × (types : List ServiceTypeDto) × (st : ServiceTypeDto) × (get http
            "/service-types"
          ≡ some body)
        × (http.unmarshal_types body ≡ some types)
        × In st types
        × (st.id ≡ id)
  unfolding check_service_type
  service_found id b h = elim (Option-cases (get http "/service-types")) [
    | inl e ↦ absurd (ground (arith, e))
    | inr (body, e) ↦ elim (Option-cases (http.unmarshal_types body)) [
      | inl f ↦ absurd (ground (arith, e, f))
      | inr (types, f) ↦ elim (Bool-cases (any (λ (st : ServiceTypeDto). st.id == id) types)) [
        | inr g ↦ absurd (ground (arith, e, f, g))
        | inl g ↦
            let (st, m, n) = any-true-In _ types g in
            (body, types, st, e, f, m, (eq_iff st.id id).0 n)
      ]
    ]
  ]

  vehicles_of-ok :
      (resp : Response) (vs : List VehicleDto)
      → vehicles_of http resp ≡ ok vs
      → (resp.status ≡ 200) × (http.decode_vehicles resp.body ≡ some vs)
  unfolding vehicles_of
  vehicles_of-ok resp vs h = elim (Option-cases (http.decode_vehicles resp.body)) [
    | inl e ↦ absurd (ground (arith, e))
    | inr (x, e) ↦ (ground (arith, e), ground (arith, e))
  ]

  vehicle_found :
      (customer id : String) (b : Bool)
      → check_vehicle http customer id ≡ ok b
      → (resp : Response) × (vs : List VehicleDto) × (v : VehicleDto) × (http.request
            (append (append "/customers/" customer) "/vehicles")
          ≡ some resp)
        × (resp.status ≡ 200)
        × (http.decode_vehicles resp.body ≡ some vs)
        × In v vs
        × (v.id ≡ id)
  unfolding check_vehicle
  vehicle_found customer id b h =
      elim (Option-cases (http.request (append (append "/customers/" customer) "/vehicles"))) [
        | inl e ↦ absurd (ground (arith, e))
        | inr (resp, e) ↦ elim (Result-cases (vehicles_of http resp)) [
          | inr (x, f) ↦ absurd (ground (arith, e, f))
          | inl (vs, f) ↦ elim (Bool-cases (any (λ (v : VehicleDto). v.id == id) vs)) [
            | inr g ↦ absurd (ground (arith, e, f, g))
            | inl g ↦
                let (v, m, n) = any-true-In _ vs g in
                let (found, read) = vehicles_of-ok resp vs f in
                (resp, vs, v, e, found, read, m, (eq_iff v.id id).0 n)
          ]
        ]
      ]

  -- A snapshot is given only of a dealership that the Catalog lists, with its zone and for each day
  -- the last of the hours that it lists for the day, or none if it lists none, for a service type
  -- that it lists and a vehicle that it lists among the customer's.
  pub snapshot-Vouched :
      (dealership service customer vehicle : String) (snap : Snapshot)
      → snapshot http dealership service customer vehicle ≡ ok snap
      → Vouched dealership service customer vehicle snap
  unfolding snapshot
  snapshot-Vouched dealership service customer vehicle snap h =
      elim (Result-cases (find_dealership http dealership)) [
        | inr (x, e) ↦ absurd (ground (arith, e))
        | inl (d, e) ↦ elim (Result-cases (check_service_type http service)) [
          | inr (x, f) ↦ absurd (ground (arith, e, f))
          | inl (s, f) ↦ elim (Result-cases (check_vehicle http customer vehicle)) [
            | inr (x, g) ↦ absurd (ground (arith, e, f, g))
            | inl (v, g) ↦
                let (db, ds, de, df, dm, dn) = dealership_found dealership d e in
                let (tb, ts, st, te, tf, tm, tn) = service_found service s f in
                let (va, vs, car, ve, vo, vr, vm, vn) = vehicle_found customer vehicle v g in
                let same : snap ≡ answered d s v = ground (arith, e, f, g) in
                rw same (record {
                  dealers_body = db;
                  dealers = ds;
                  dealers_got = de;
                  dealers_read = df;
                  dealer = d;
                  listed = dm;
                  asked = dn;
                  id = dn;
                  timezone = refl;
                  hours = hours_map-Gives d.opening_hours;
                  types_body = tb;
                  types = ts;
                  types_got = te;
                  types_read = tf;
                  service_type = st;
                  service_listed = tm;
                  service_asked = tn;
                  vehicles_answer = va;
                  vehicles = vs;
                  vehicles_got = ve;
                  vehicles_found = vo;
                  vehicles_read = vr;
                  car = car;
                  car_listed = vm;
                  car_asked = vn;
                })
          ]
        ]
      ]
