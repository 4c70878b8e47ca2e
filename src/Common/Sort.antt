-- ===== src/Common/Sort.antt =====
-- ORDER BY, as insertion: among equals, whose order SQL leaves open, the first stays first.
use mathlib.Core.Path.{◌≡◌, refl, ap, ◌∙◌}
use mathlib.Core.Logic.{◌⊎◌, inl, inr}
use native.Mathlib.Omega.{arith}
use mathlib.Core.Bool.{Bool, ◌||◌}
use mathlib.Core.List.{List, [], ◌∷◌}
use unified_service_schedule.Common.Tests.{if◌then◌else◌, Bool-cases}
use unified_service_schedule.Common.Lists.{In, here, there, In-later, In-cons, any}

unfoldable pub insert_by {ℓ} : {A : Type ℓ} → (A → A → Bool) → A → List A → List A
insert_by le x [] = x ∷ []
insert_by le x (y ∷ ys) = let rest = insert_by le x ys in if le x y then x ∷ y ∷ ys else y ∷ rest

unfoldable pub sort_by {ℓ} : {A : Type ℓ} → (A → A → Bool) → List A → List A
unfolding insert_by
sort_by le [] = []
sort_by le (x ∷ xs) = insert_by le x (sort_by le xs)

insert_by-In {ℓ} :
    {A : Type ℓ} (le : A → A → Bool) (x : A) {a : A} (ys : List A)
    → In a (insert_by le x ys)
    → (x ≡ a) ⊎ In a ys
unfolding insert_by
insert_by-In le x [] m = In-cons m
insert_by-In le x (y ∷ ys) m = elim (Bool-cases (le x y)) [
  | inl k ↦ In-cons (rw k at m)
  | inr k ↦ In-later y (insert_by-In le x ys) (In-cons (rw k at m))
]

In-insert_by_head {ℓ} :
    {A : Type ℓ} (le : A → A → Bool) (x : A) {a : A} (ys : List A)
    → x ≡ a
    → In a (insert_by le x ys)
unfolding insert_by
In-insert_by_head le x [] e = here e
In-insert_by_head le x (y ∷ ys) e = elim (Bool-cases (le x y)) [
  | inl k ↦ rw k (here e)
  | inr k ↦ rw k (there (In-insert_by_head le x ys e))
]

In-insert_by_rest {ℓ} :
    {A : Type ℓ} (le : A → A → Bool) (x : A) {a : A} (ys : List A)
    → In a ys
    → In a (insert_by le x ys)
unfolding insert_by
In-insert_by_rest le x [] m = elim m [ ]
In-insert_by_rest le x (y ∷ ys) m = elim (Bool-cases (le x y)) [
  | inl k ↦ rw k (there m)
  | inr k ↦ rw k (elim m [ here e ↦ here e | there n ↦ there (In-insert_by_rest le x ys n) ])
]

pub sort_by-In {ℓ} :
    {A : Type ℓ} (le : A → A → Bool) {a : A} (xs : List A) → In a (sort_by le xs) → In a xs
unfolding sort_by
sort_by-In le [] m = m
sort_by-In le (x ∷ xs) m = elim (insert_by-In le x (sort_by le xs) m) [
  | inl e ↦ here e
  | inr n ↦ there (sort_by-In le xs n)
]

pub In-sort_by {ℓ} :
    {A : Type ℓ} (le : A → A → Bool) {a : A} (xs : List A) → In a xs → In a (sort_by le xs)
unfolding sort_by
In-sort_by le [] m = m
In-sort_by le (x ∷ xs) (here e) = In-insert_by_head le x (sort_by le xs) e
In-sort_by le (x ∷ xs) (there m) = In-insert_by_rest le x (sort_by le xs) (In-sort_by le xs m)

any-insert_by {ℓ} :
    {A : Type ℓ} (p : A → Bool) (le : A → A → Bool) (x : A) (ys : List A)
    → any p (insert_by le x ys) ≡ (p x || any p ys)
unfolding insert_by
any-insert_by p le x [] = refl
any-insert_by p le x (y ∷ ys) = ground (arith, any-insert_by p le x ys)

pub any-sort_by {ℓ} :
    {A : Type ℓ} (p : A → Bool) (le : A → A → Bool) (xs : List A) → any p (sort_by le xs) ≡ any p xs
unfolding sort_by
any-sort_by p le [] = refl
any-sort_by p le (x ∷ xs) =
    any-insert_by p le x (sort_by le xs) ∙ ap (λ b. p x || b) (any-sort_by p le xs)
