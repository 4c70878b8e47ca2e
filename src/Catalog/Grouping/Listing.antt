-- ===== src/Catalog/Grouping/Listing.antt =====
-- The listing of the loop, entry by entry.
use unified_service_schedule.Common.{
  String, ◌≡◌, refl, sym, ap, ◌∙◌, Bool, true, false, not, Option, none, some, List, [], ◌∷◌, ◌++◌,
  map, arith, ◌==◌, eq_iff, eq_refl, any-In, In, here, there, select, Bool-cases, inl, inr,
}
use unified_service_schedule.Catalog.{
  OpeningHours, Joined, Dealership, Groups, no_groups, with_hours, first_seen, scan_joined, collect,
}
use unified_service_schedule.Catalog.Server.{
  dealerships, after_joined, joined_rows, list_dealerships,
}
use unified_service_schedule.Catalog.{Tables, query, no_fault}
use unified_service_schedule.Catalog.Grouping.{
  or_skip, hours_in, listing, has, find_in, Distinct, upsert, upsert_all, has-upsert,
  upsert-Distinct, scan_joined-Represents,
}

-- An entry after more rows.
abbrev extend : List Joined → Dealership → Dealership
extend rs d = record d { opening_hours = d.opening_hours ++ hours_in d.id rs }

abbrev head_of : Joined → List Joined → Dealership
head_of r rs = record {
  id = r.id;
  name = r.name;
  timezone = r.timezone;
  opening_hours = hours_in r.id (r ∷ rs);
}

append_nil {ℓ} : {A : Type ℓ} (xs : List A) → xs ++ [] ≡ xs
append_nil [] = refl
append_nil (x ∷ xs) = ap (λ l. x ∷ l) (append_nil xs)

append_cons {ℓ} :
    {A : Type ℓ} (xs : List A) (y : A) (zs : List A) → (xs ++ (y ∷ [])) ++ zs ≡ xs ++ (y ∷ zs)
append_cons [] y zs = refl
append_cons (x ∷ xs) y zs = ap (λ l. x ∷ l) (append_cons xs y zs)

extend_nil : (ds : List Dealership) → map (extend []) ds ≡ ds
unfolding hours_in
extend_nil [] = refl
extend_nil (d ∷ ds) = rw (append_nil d.opening_hours, extend_nil ds) refl

extend_other :
    (r : Joined) (rs : List Joined) (d : Dealership)
    → (r.id == d.id) ≡ false
    → extend rs d ≡ extend (r ∷ rs) d
unfolding hours_in
extend_other r rs d h = rw h refl

extend_others :
    (r : Joined) (rs : List Joined) (ds : List Dealership)
    → has r.id ds ≡ false
    → map (extend rs) ds ≡ map (extend (r ∷ rs)) ds
extend_others r rs [] h = refl
extend_others r rs (d ∷ ds) h =
    let other : (r.id == d.id) ≡ false = ground (arith, eq_iff r.id d.id, eq_iff d.id r.id) in
    let rest = extend_others r rs ds (ground arith) in cc (extend_other r rs d other)

extend-with_hours :
    (h : Option OpeningHours) (rs : List Joined) (d : Dealership)
    → extend rs (with_hours h d)
      ≡ record d { opening_hours = d.opening_hours ++ or_skip h (hours_in d.id rs) }
unfolding with_hours
extend-with_hours none rs d = refl
extend-with_hours (some h) rs d =
    ap (λ l. record d { opening_hours = l }) (append_cons d.opening_hours h (hours_in d.id rs))

extend_same :
    (r : Joined) (rs : List Joined) (d : Dealership)
    → (r.id == d.id) ≡ true
    → extend rs (with_hours r.hours d) ≡ extend (r ∷ rs) d
unfolding hours_in
extend_same r rs d h = rw h (extend-with_hours r.hours rs d)

extend_first :
    (r : Joined) (rs : List Joined) → extend rs (with_hours r.hours (first_seen r)) ≡ head_of r rs
extend_first r rs = extend_same r rs (first_seen r) (eq_refl r.id)

extend-absent :
    (r : Joined) (rs : List Joined) (ds : List Dealership)
    → has r.id ds ≡ false
    → map (extend rs) (upsert r ds) ≡ map (extend (r ∷ rs)) ds ++ (head_of r rs ∷ [])
extend-absent r rs [] h = ap (λ d. d ∷ []) (extend_first r rs)
extend-absent r rs (d ∷ ds) h =
    let other : (d.id == r.id) ≡ false = ground arith in
    let other' : (r.id == d.id) ≡ false = ground (arith, eq_iff r.id d.id, eq_iff d.id r.id) in
    let rest = extend-absent r rs ds (ground arith) in
    rw other (
      ap (λ e. e ∷ map (extend rs) (upsert r ds)) (extend_other r rs d other')
      ∙ ap (λ l. extend (r ∷ rs) d ∷ l) rest)

extend-present :
    (r : Joined) (rs : List Joined) (ds : List Dealership)
    → Distinct ds
    → has r.id ds ≡ true
    → map (extend rs) (upsert r ds) ≡ map (extend (r ∷ rs)) ds
extend-present r rs [] v h = cc
extend-present r rs (d ∷ ds) v h = elim (Bool-cases (d.id == r.id)) [
  | inl e ↦
      let same : (r.id == d.id) ≡ true = ground (arith, e, eq_iff r.id d.id, eq_iff d.id r.id) in
      let gone : has r.id ds ≡ false = rw (sym ((eq_iff d.id r.id).0 e)) v.0 in
      rw e (
        ap (λ x. x ∷ map (extend rs) ds) (extend_same r rs d same)
        ∙ ap (λ l. extend (r ∷ rs) d ∷ l) (extend_others r rs ds gone))
  | inr e ↦
      let other : (r.id == d.id) ≡ false = ground (arith, e, eq_iff r.id d.id, eq_iff d.id r.id) in
      let rest = extend-present r rs ds v.1 (ground (arith, e)) in
      rw e (
        ap (λ x. x ∷ map (extend rs) (upsert r ds)) (extend_other r rs d other)
        ∙ ap (λ l. extend (r ∷ rs) d ∷ l) rest)
]

-- The entries that are not there yet.
abbrev new_to : List Dealership → List Dealership → List Dealership
new_to ds l = select (λ d. not (has d.id ds)) l

new_to-upsert :
    (r : Joined) (ds l : List Dealership)
    → new_to (upsert r ds) l ≡ new_to ds (select (λ d. not (r.id == d.id)) l)
new_to-upsert r ds [] = refl
new_to-upsert r ds (d ∷ l) = ground (arith, new_to-upsert r ds l, has-upsert d.id r ds)

upsert_all-listing :
    (rs : List Joined) (ds : List Dealership)
    → Distinct ds
    → upsert_all rs ds ≡ map (extend rs) ds ++ new_to ds (listing rs)
unfolding listing
upsert_all-listing [] ds v = sym (append_nil _ ∙ extend_nil ds)
upsert_all-listing (r ∷ rs) ds v =
    let rest = upsert_all-listing rs (upsert r ds) (upsert-Distinct r ds v) in
    elim (Bool-cases (has r.id ds)) [
      | inr e ↦
          rest
          ∙ ap (λ l. l ++ new_to (upsert r ds) (listing rs)) (extend-absent r rs ds e)
          ∙ append_cons (map (extend (r ∷ rs)) ds) (head_of r rs) _
          ∙ rw e (
              ap (λ l. map (extend (r ∷ rs)) ds ++ (head_of r rs ∷ l))
                (new_to-upsert r ds (listing rs)))
      | inl e ↦
          rest
          ∙ ap (λ l. l ++ new_to (upsert r ds) (listing rs)) (extend-present r rs ds v e)
          ∙ rw e (ap (λ l. map (extend (r ∷ rs)) ds ++ l) (new_to-upsert r ds (listing rs)))
    ]

collect-All :
    (m : String → Option Dealership) (ds : List Dealership)
    → ((d : Dealership) → In d ds → m d.id ≡ some d)
    → collect m (map (λ d. d.id) ds) ≡ some ds
unfolding collect
collect-All m [] h = refl
collect-All m (d ∷ ds) h = rw (h d (here refl), collect-All m ds (λ x i. h x (there i))) refl

find_in-In :
    (ds : List Dealership) (d : Dealership) → Distinct ds → In d ds → find_in d.id ds ≡ some d
find_in-In [] d v m = elim m [ ]
find_in-In (x ∷ ds) d v (here e) =
    let same : (x.id == d.id) ≡ true = (eq_iff x.id d.id).1 (ap (λ (y : Dealership). y.id) e) in
    rw same (ap some e)
find_in-In (x ∷ ds) d v (there m) =
    let unlike : (d.id == x.id) ≡ false = any-In _ ds v.0 m in
    let other : (x.id == d.id) ≡ false = ground (arith, eq_iff x.id d.id, eq_iff d.id x.id) in
    rw other (find_in-In ds d v.1 m)

-- `some` of a list without condition
select_all {ℓ} : {A : Type ℓ} (xs : List A) → select (λ x. true) xs ≡ xs
select_all [] = refl
select_all (x ∷ xs) = ap (λ l. x ∷ l) (select_all xs)

-- The loop collects the listing that is meant.
pub scan_joined-listing :
    (rs : List Joined)
    → (g : Groups) × (scan_joined (map some rs) no_groups ≡ some g)
      × (collect g.by_id g.order ≡ some (listing rs))
scan_joined-listing rs =
    let (g, e, (o, m), v) = scan_joined-Represents rs no_groups [] (refl, (λ i. refl)) tt in
    let eq = upsert_all-listing rs [] tt ∙ select_all (listing rs) in
    (
      g,
      e,
      rw o (
          collect-All g.by_id (upsert_all rs [])
            (λ d i. m d.id ∙ find_in-In (upsert_all rs []) d v i)
          ∙ ap some eq),
    )

-- Without a fault, listDealerships answers 200 with each dealership once, where its first row
-- stands, and with the hours of all its rows in their order, also where the rows of dealerships
-- that share a name alternate.
pub list_dealerships-listing :
    (text_le : String → String → Bool) (db : Tables)
    → list_dealerships text_le db no_fault ≡ dealerships (listing (joined_rows text_le db))
unfolding list_dealerships query after_joined
list_dealerships-listing text_le db =
    let (g, e, c) = scan_joined-listing (joined_rows text_le db) in rw (e, c) refl
