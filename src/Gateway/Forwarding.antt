-- ===== src/Gateway/Forwarding.antt =====
-- What the services are given of a request, and which of them.
use unified_service_schedule.Common.{
  String, ◌≡◌, ◌≢◌, ◌⊎◌, inl, inr, refl, ap, subst, Bool, true, false, not, ◌&&◌, ◌||◌, List, [],
  ◌∷◌, ◌==◌, eq_iff, arith, if◌then◌else◌, Bool-cases,
}
use unified_service_schedule.Mux.{
  Method, Found, found, no_method, no_path, lookup, match_path, Headers, get_header, set_header,
  Request,
}
use unified_service_schedule.Catalog.Server as Catalog
use unified_service_schedule.Booking.Http.Server as Booking
use unified_service_schedule.Gateway.{
  copy_key, forward_headers, Outcome, to_catalog, to_booking, answered, Target, catalog_target,
  booking_target, healthz, routes, is_options, catalog_route, booking_route, handle, serve_mux,
  cors_wrap, serve,
}

-- The service has a handler for the request, other than its own /healthz.
abbrev catalog_found : Found Catalog.Endpoint → Bool
catalog_found (found Catalog.on_healthz vs) = false
catalog_found (found _ vs) = true
catalog_found _ = false

abbrev booking_found : Found Booking.Endpoint → Bool
booking_found (found Booking.on_healthz vs) = false
booking_found (found _ vs) = true
booking_found _ = false

abbrev pub on_catalog : Method → List String → Bool
on_catalog m path = catalog_found (lookup Catalog.routes m path)

abbrev pub on_booking : Method → List String → Bool
on_booking m path = booking_found (lookup Booking.routes m path)

abbrev is_catalog : Found Target → Bool
is_catalog (found catalog_target vs) = true
is_catalog _ = false

abbrev is_booking : Found Target → Bool
is_booking (found booking_target vs) = true
is_booking _ = false

-- The pattern that is found belongs to a service that has a handler for the request, and where none
-- is found there is no such service.
abbrev is_routed : Method → List String → Found Target → Bool
is_routed m path f =
    (not (is_catalog f) || on_catalog m path)
    && (not (is_booking f) || on_booking m path)
    && (is_catalog f || is_booking f || (not (on_catalog m path) && not (on_booking m path)))

abbrev Right : Method → List String → Type 0
Right m path = is_routed m path (lookup routes m path) ≡ true

-- A segment is a literal, or is not.
segment : (P : String → Type 0) (l s : String) → P l → ((l == s) ≡ false → P s) → P s
segment P l s same other = elim (Bool-cases (l == s)) [
  | inl e ↦ subst P ((eq_iff l s).0 e) same
  | inr e ↦ other e
]

-- The first segment is one of the literals that a pattern starts with, or no pattern matches.
by_first :
    (m : Method) (s : String) (rest : List String)
    → Right m ("dealerships" ∷ rest)
    → Right m ("service-types" ∷ rest)
    → Right m ("customers" ∷ rest)
    → Right m ("holds" ∷ rest)
    → Right m ("appointments" ∷ rest)
    → Right m ("healthz" ∷ rest)
    → Right m (s ∷ rest)
unfolding lookup routes Catalog.routes Booking.routes match_path
by_first m s rest pa pb pc pd pe pf =
    let at : String → Type 0 = λ x. Right m (x ∷ rest) in
    segment at "dealerships" s pa (λ a. segment at "service-types" s pb (λ b.
      segment at "customers" s pc (λ c. segment at "holds" s pd (λ d.
        segment at "appointments" s pe
          (λ e. segment at "healthz" s pf (λ f. rw (a, b, c, d, e, f) refl))))))

routes-is_routed : (m : Method) (path : List String) → Right m path
unfolding lookup routes Catalog.routes Booking.routes match_path
routes-is_routed m [] = refl
routes-is_routed m (s ∷ []) =
    by_first m s [] (ground arith) (ground arith) (ground arith) (ground arith) (ground arith)
      (ground arith)
routes-is_routed m (s ∷ t ∷ []) = by_first m s (t ∷ []) refl refl refl refl (ground arith) refl
routes-is_routed m (s ∷ t ∷ u ∷ []) =
    by_first m s (t ∷ u ∷ []) refl refl (ground arith) refl refl refl
routes-is_routed m (s ∷ t ∷ u ∷ v ∷ path) =
    by_first m s (t ∷ u ∷ v ∷ path) refl refl (ground arith) refl refl refl

-- What the proxy of a service is given: the request with the first of the key's values alone, with an
-- id in X-Request-Id, and else unchanged.
pub record Forwards {B : Type 0} (uuid : String) (r q : Request B) : Type 0 where
  pub method : q.method ≡ r.method
  pub path : q.path ≡ r.path
  pub body : q.body ≡ r.body
  pub key : get_header "Idempotency-Key" q.headers ≡ get_header "Idempotency-Key" r.headers
  pub request_id : get_header "X-Request-Id" q.headers ≡ (
      if get_header "X-Request-Id" r.headers == ""
      then uuid
      else get_header "X-Request-Id" r.headers)
  pub others :
      (name : String)
      → name ≢ "Idempotency-Key"
      → name ≢ "X-Request-Id"
      → q.headers name ≡ r.headers name

copy_key-other :
    (name : String) (h : Headers) → ("Idempotency-Key" == name) ≡ false → copy_key h name ≡ h name
unfolding copy_key set_header
copy_key-other name h other = elim (Bool-cases (get_header "Idempotency-Key" h == "")) [
  | inl e ↦ rw e refl
  | inr e ↦ rw (e, other) refl
]

get_header-copy_key :
    (h : Headers) → get_header "Idempotency-Key" (copy_key h) ≡ get_header "Idempotency-Key" h
unfolding copy_key set_header
get_header-copy_key h = elim (Bool-cases (get_header "Idempotency-Key" h == "")) [
  | inl e ↦ rw e refl
  | inr e ↦ rw e (unfold get_header in refl)
]

get_header-same :
    (key : String) (h k : Headers) → h key ≡ k key → get_header key h ≡ get_header key k
unfolding get_header
get_header-same key h k e = rw (e, get_header) refl

copy_key-id : (h : Headers) → get_header "X-Request-Id" (copy_key h) ≡ get_header "X-Request-Id" h
copy_key-id h = get_header-same "X-Request-Id" (copy_key h) h (copy_key-other "X-Request-Id" h refl)

forward_headers-Forwards :
    {B : Type 0} (uuid : String) (r : Request B)
    → Forwards uuid r (record r { headers = forward_headers uuid r.headers })
unfolding forward_headers get_header set_header
forward_headers-Forwards uuid r = record {
  method = refl;
  path = refl;
  body = refl;
  key = get_header-copy_key r.headers;
  request_id = ap (λ v. if v == "" then uuid else v) (copy_key-id r.headers);
  others = λ name a b.
      let other : ("X-Request-Id" == name) ≡ false = ground (arith, eq_iff "X-Request-Id" name) in
      let other' : ("Idempotency-Key" == name) ≡ false =
        ground (arith, eq_iff "Idempotency-Key" name) in
      rw other (copy_key-other name r.headers other');
}

-- The Catalog is given exactly the requests that it has a handler for, the booking service likewise,
-- and the gateway itself answers preflights, its /healthz and what no service has a handler for.
abbrev pub Handled : {B : Type 0} → String → Request B → Outcome B → Type 0
Handled uuid r (to_catalog q) =
    Forwards uuid r q × (is_options r.method ≡ false) × (on_catalog r.method r.path ≡ true)
Handled uuid r (to_booking q) =
    Forwards uuid r q × (is_options r.method ≡ false) × (on_booking r.method r.path ≡ true)
Handled uuid r (answered status text) =
    ((is_options r.method ≡ true) × (status ≡ 204))
    ⊎ ((is_options r.method ≡ false)
        × (on_catalog r.method r.path ≡ false)
        × (on_booking r.method r.path ≡ false))

handle-Handled :
    {B : Type 0} (uuid : String) (r : Request B) (f : Found Target)
    → is_options r.method ≡ false
    → is_routed r.method r.path f ≡ true
    → Handled uuid r (handle uuid f r)
unfolding handle catalog_route booking_route
handle-Handled uuid r (found catalog_target vs) o h =
    (forward_headers-Forwards uuid r, o, ground arith)
handle-Handled uuid r (found booking_target vs) o h =
    (forward_headers-Forwards uuid r, o, ground arith)
handle-Handled uuid r (found healthz vs) o h = inr (o, ground arith, ground arith)
handle-Handled uuid r no_method o h = inr (o, ground arith, ground arith)
handle-Handled uuid r no_path o h = inr (o, ground arith, ground arith)

-- The gateway gives a request to the service that has a handler for it, with the method, the path,
-- the body and the Idempotency-Key that it came with, its X-Request-Id or a new one, and every other
-- header; it answers a preflight with 204, and itself what neither service has a handler for.
pub serve-Handled : {B : Type 0} (uuid : String) (r : Request B) → Handled uuid r (serve uuid r).1
unfolding serve cors_wrap serve_mux
serve-Handled uuid r = elim (Bool-cases (is_options r.method)) [
  | inl o ↦ rw o (inl (o, refl))
  | inr o ↦
      rw o
        (handle-Handled uuid r (lookup routes r.method r.path) o (routes-is_routed r.method r.path))
]
