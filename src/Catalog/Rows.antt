-- ===== src/Catalog/Rows.antt =====
-- The rows behind the entries of the listing.
use unified_service_schedule.Common.{
  String, ◌≡◌, inl, inr, refl, sym, ap, ◌∙◌, Bool, false, Option, none, some, List, [], ◌∷◌, arith,
  ◌==◌, eq_iff, any, any-In, In, here, there, sort_by-In, In-sort_by, if◌then◌else◌, Bool-cases,
  Option-cases, Unlike-eq,
}
use unified_service_schedule.Catalog.{
  Tables, Joined, DealershipRow, Dealership, IsValid, same_dealership,
}
use unified_service_schedule.Catalog.Server.{joined_rows}
use unified_service_schedule.Catalog.Grouping.{hours_in}
use unified_service_schedule.Catalog.Dealers.{
  entry, entry-row, entry-none, left_join-In, In-left_join,
}

abbrev pub find_row : String → List DealershipRow → Option DealershipRow
find_row id [] = none
find_row id (d ∷ ds) = let rest = find_row id ds in if d.id == id then some d else rest

pub find_row-In :
    (id : String) (ds : List DealershipRow) (d : DealershipRow)
    → find_row id ds ≡ some d
    → In d ds × (d.id ≡ id)
find_row-In id [] d h = cc
find_row-In id (x ∷ ds) d h = elim (Bool-cases (x.id == id)) [
  | inl e ↦
      let same : x ≡ d = ground (arith, e) in (here same, ground (arith, e, same, eq_iff x.id id))
  | inr e ↦ let (m, n) = find_row-In id ds d (ground (arith, e)) in (there m, n)
]

find_row-none :
    (id : String) (ds : List DealershipRow)
    → find_row id ds ≡ none
    → any (λ d. d.id == id) ds ≡ false
find_row-none id [] h = refl
find_row-none id (d ∷ ds) h = ground (arith, find_row-none id ds)

module _ (text_le : String → String → Bool) (db : Tables) (v : IsValid db) where
  -- A row of the query comes from a dealership.
  joined_rows-row :
      {r : Joined}
      → In r (joined_rows text_le db)
      → (d : DealershipRow) × In d db.dealership × (r.id ≡ d.id) × (r.timezone ≡ d.timezone)
  unfolding joined_rows
  joined_rows-row m =
      let (d, n, s) = left_join-In db.dealership db.opening_hours (sort_by-In _ _ m) in
      elim s [
        | inl (h, p, q) ↦ (d, n, ap (λ (z : Joined). z.id) q, ap (λ (z : Joined). z.timezone) q)
        | inr q ↦ (d, n, ap (λ (z : Joined). z.id) q, ap (λ (z : Joined). z.timezone) q)
      ]

  -- The listing has no entry without a row.
  pub entry-unlisted :
      (id : String) → find_row id db.dealership ≡ none → entry id (joined_rows text_le db) ≡ none
  entry-unlisted id h = elim (Option-cases (entry id (joined_rows text_le db))) [
    | inl e ↦ e
    | inr (x, e) ↦
        let (r, m, i, _, _, _) = entry-row id (joined_rows text_le db) x e in
        let (d, n, a, _) = joined_rows-row m in
        let own = any-In _ db.dealership (find_row-none id db.dealership h) n in
        absurd (cc ((eq_iff d.id id).1 (sym a ∙ i), own))
  ]

  -- The entry of a row has its zone and its hours.
  pub entry-listed :
      (id : String) (d : DealershipRow)
      → find_row id db.dealership ≡ some d
      → (e : Dealership) × (entry id (joined_rows text_le db) ≡ some e)
        × (e.id ≡ d.id)
        × (e.timezone ≡ d.timezone)
        × (e.opening_hours ≡ hours_in d.id (joined_rows text_le db))
  unfolding joined_rows
  entry-listed id d h =
      let (m, i) = find_row-In id db.dealership d h in
      let (hours, j) = In-left_join db.dealership db.opening_hours d m in
      elim (Option-cases (entry id (joined_rows text_le db))) [
        | inl e ↦
            let no = any-In _ _ (entry-none id (joined_rows text_le db) e) (In-sort_by _ _ j) in
            absurd (cc ((eq_iff d.id id).1 i, no))
        | inr (x, e) ↦
            let (q, n, k, xk, z, o) = entry-row id (joined_rows text_le db) x e in
            let (d', m', a, b) = joined_rows-row n in
            let own : d'.id ≡ d.id = sym a ∙ k ∙ sym i in
            let same : d' ≡ d =
              Unlike-eq same_dealership db.dealership v.ids m' m ((eq_iff d.id d'.id).1 (sym own))
                ((eq_iff d'.id d.id).1 own) in
            (
              x,
              e,
              xk ∙ sym i,
              z ∙ b ∙ ap (λ (y : DealershipRow). y.timezone) same,
              o ∙ ap (λ y. hours_in y (joined_rows text_le db)) (sym i),
            )
      ]
