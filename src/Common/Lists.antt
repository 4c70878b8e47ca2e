-- ===== src/Common/Lists.antt =====
-- Lists over the native numbers: tests, predicates by recursion, and their laws.
use Prim.Native.Nat.{ℕ, zero, suc, ◌≤◌}
use mathlib.Core.Path.{◌≡◌, refl, sym, ap, ◌∙◌}
use mathlib.Core.Logic.{◌⊎◌, inl, inr}
use mathlib.Core.Bool.{Bool, true, false, ◌&&◌, ◌||◌}
use mathlib.Core.List.{List, [], ◌∷◌, ◌++◌, map}
use native.Mathlib.Omega.{arith}
use unified_service_schedule.Common.Tests.{if◌then◌else◌, Bool-cases}

-- The elements on which a Boolean test holds.
abbrev pub select {ℓ} : {A : Type ℓ} → (A → Bool) → List A → List A
select p [] = []
select p (x ∷ xs) = let rest = select p xs in if p x then x ∷ rest else rest

abbrev pub any {ℓ} : {A : Type ℓ} → (A → Bool) → List A → Bool
any p [] = false
any p (x ∷ xs) = p x || any p xs

abbrev pub All {ℓ κ} : {A : Type ℓ} → (A → Type κ) → List A → Type κ
All P [] = Unit
All P (x ∷ xs) = P x × All P xs

-- Membership, with the place kept.
pub data In {ℓ} {A : Type ℓ} (a : A) : List A → Type ℓ where
  here : {x : A} {xs : List A} → x ≡ a → In a (x ∷ xs)
  there : {x : A} {xs : List A} → In a xs → In a (x ∷ xs)

abbrev pub length {ℓ} : {A : Type ℓ} → List A → ℕ
length [] = 0
length (x ∷ xs) = suc (length xs)

abbrev pub take {ℓ} : {A : Type ℓ} → ℕ → List A → List A
take zero xs = []
take (suc n) [] = []
take (suc n) (x ∷ xs) = x ∷ take n xs

pub In-map {ℓ κ} :
    {A : Type ℓ} {B : Type κ} (f : A → B) {a : A} {xs : List A} → In a xs → In (f a) (map f xs)
In-map f (here p) = here (ap f p)
In-map f (there m) = there (In-map f m)

pub In-select {ℓ} :
    {A : Type ℓ} (p : A → Bool) {a : A} (xs : List A) → p a ≡ true → In a xs → In a (select p xs)
In-select p [] h m = elim m [ ]
In-select p (x ∷ xs) h (here e) = rw (ap p e ∙ h) (here e)
In-select p (x ∷ xs) h (there m) = elim (Bool-cases (p x)) [
  | inl k ↦ rw k (there (In-select p xs h m))
  | inr k ↦ rw k (In-select p xs h m)
]

-- the step of `select-In` at an element that is kept
select-In_kept {ℓ} :
    {A : Type ℓ} (p : A → Bool) {a : A} (x : A) (xs : List A)
    → p x ≡ true
    → (In a (select p xs) → In a xs × (p a ≡ true))
    → In a (x ∷ select p xs)
    → In a (x ∷ xs) × (p a ≡ true)
select-In_kept p x xs k rest (here e) = (here e, ap p (sym e) ∙ k)
select-In_kept p x xs k rest (there m) = let (i, e) = rest m in (there i, e)

pub select-In {ℓ} :
    {A : Type ℓ} (p : A → Bool) {a : A} (xs : List A) → In a (select p xs) → In a xs × (p a ≡ true)
select-In p [] m = elim m [ ]
select-In p {a} (x ∷ xs) m = elim (Bool-cases (p x)) [
  | inl k ↦ select-In_kept p x xs k (select-In p xs) (rw k at m)
  | inr k ↦ let (i, e) = select-In p xs (rw k at m) in (there i, e)
]

pub any-In {ℓ} :
    {A : Type ℓ} (p : A → Bool) {a : A} (xs : List A) → any p xs ≡ false → In a xs → p a ≡ false
any-In p [] h m = elim m [ ]
any-In p (x ∷ xs) h (here e) = ground (arith, ap p e)
any-In p (x ∷ xs) h (there m) = any-In p xs (ground arith) m

pub any-true-In {ℓ} :
    {A : Type ℓ} (p : A → Bool) (xs : List A) → any p xs ≡ true → (a : A) × In a xs × (p a ≡ true)
any-true-In p [] h = cc
any-true-In p (x ∷ xs) h = elim (Bool-cases (p x)) [
  | inl k ↦ (x, here refl, k)
  | inr k ↦ let (a, i, e) = any-true-In p xs (ground arith) in (a, there i, e)
]

pub map-In {ℓ κ} :
    {A : Type ℓ} {B : Type κ} (f : A → B) {b : B} (xs : List A)
    → In b (map f xs)
    → (a : A) × In a xs × (f a ≡ b)
map-In f [] m = elim m [ ]
map-In f (x ∷ xs) (here e) = (x, here refl, e)
map-In f (x ∷ xs) (there m) = let (a, i, e) = map-In f xs m in (a, there i, e)

pub In-append_left {ℓ} : {A : Type ℓ} {a : A} (xs ys : List A) → In a xs → In a (xs ++ ys)
In-append_left [] ys m = elim m [ ]
In-append_left (x ∷ xs) ys (here e) = here e
In-append_left (x ∷ xs) ys (there m) = there (In-append_left xs ys m)

pub In-append_right {ℓ} : {A : Type ℓ} {a : A} (xs ys : List A) → In a ys → In a (xs ++ ys)
In-append_right [] ys m = m
In-append_right (x ∷ xs) ys m = there (In-append_right xs ys m)

pub append-In {ℓ} : {A : Type ℓ} {a : A} (xs ys : List A) → In a (xs ++ ys) → In a xs ⊎ In a ys
append-In [] ys m = inr m
append-In (x ∷ xs) ys (here e) = inl (here e)
append-In (x ∷ xs) ys (there m) = elim (append-In xs ys m) [ inl i ↦ inl (there i) | inr i ↦ inr i ]

pub In-any {ℓ} :
    {A : Type ℓ} (p : A → Bool) {a : A} (xs : List A) → In a xs → p a ≡ true → any p xs ≡ true
In-any p [] m h = elim m [ ]
In-any p (x ∷ xs) (here e) h = ground (arith, ap p e)
In-any p (x ∷ xs) (there m) h = ground (arith, In-any p xs m h)

pub not-any {ℓ} :
    {A : Type ℓ} (p : A → Bool) (xs : List A) → ((a : A) → In a xs → p a ≡ false) → any p xs ≡ false
not-any p [] h = refl
not-any p (x ∷ xs) h = ground (arith, h x (here refl), not-any p xs (λ a m. h a (there m)))

pub In-cons {ℓ} : {A : Type ℓ} {a x : A} {xs : List A} → In a (x ∷ xs) → (x ≡ a) ⊎ In a xs
In-cons (here e) = inl e
In-cons (there m) = inr m

-- a place under one more element in front of the rest
pub In-later {ℓ} :
    {A : Type ℓ} {a r : A} {xs ys : List A} (s : A)
    → (In a ys → (r ≡ a) ⊎ In a xs)
    → (s ≡ a) ⊎ In a ys
    → (r ≡ a) ⊎ In a (s ∷ xs)
In-later s f (inl e) = inr (here e)
In-later s f (inr m) = elim (f m) [ inl e ↦ inl e | inr i ↦ inr (there i) ]

pub take-In {ℓ} : {A : Type ℓ} {a : A} (n : ℕ) (xs : List A) → In a (take n xs) → In a xs
take-In zero xs m = elim m [ ]
take-In (suc n) [] m = elim m [ ]
take-In (suc n) (x ∷ xs) (here e) = here e
take-In (suc n) (x ∷ xs) (there m) = there (take-In n xs m)

pub take_all {ℓ} : {A : Type ℓ} (n : ℕ) (xs : List A) → length xs ≤ n → take n xs ≡ xs
take_all zero [] h = refl
take_all zero (x ∷ xs) h = absurd (omega arith)
take_all (suc n) [] h = refl
take_all (suc n) (x ∷ xs) h = ap (λ l. x ∷ l) (take_all n xs (omega arith))

-- No two elements are the same for the test.
abbrev pub Unlike {ℓ} : {A : Type ℓ} → (A → A → Bool) → List A → Type 0
Unlike same [] = Unit
Unlike same (x ∷ xs) = (any (same x) xs ≡ false) × Unlike same xs

pub Unlike-eq {ℓ} :
    {A : Type ℓ} (same : A → A → Bool) {a b : A} (xs : List A)
    → Unlike same xs
    → In a xs
    → In b xs
    → same a b ≡ true
    → same b a ≡ true
    → a ≡ b
Unlike-eq same [] v m n p q = elim m [ ]
Unlike-eq same (x ∷ xs) v (here e) (here f) p q = sym e ∙ f
Unlike-eq same {a} {b} (x ∷ xs) v (here e) (there n) p q =
    absurd (cc (any-In (same x) xs v.0 n, ap (λ y. same y b) e, p))
Unlike-eq same {a} {b} (x ∷ xs) v (there m) (here f) p q =
    absurd (cc (any-In (same x) xs v.0 m, ap (λ y. same y a) f, q))
Unlike-eq same (x ∷ xs) v (there m) (there n) p q = Unlike-eq same xs v.1 m n p q

pub any-map {ℓ κ} :
    {A : Type ℓ} {B : Type κ} (p : B → Bool) (f : A → B) (xs : List A)
    → any p (map f xs) ≡ any (λ x. p (f x)) xs
any-map p f [] = refl
any-map p f (x ∷ xs) = ap (λ b. p (f x) || b) (any-map p f xs)

pub any-select {ℓ} :
    {A : Type ℓ} (p q : A → Bool) (xs : List A) → any p (select q xs) ≡ any (λ x. q x && p x) xs
any-select p q [] = refl
any-select p q (x ∷ xs) = ground (arith, any-select p q xs)
