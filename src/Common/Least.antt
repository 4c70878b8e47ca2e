-- ===== src/Common/Least.antt =====
-- ORDER BY a key LIMIT 1.
use Prim.Native.Nat.{ℕ, ◌≤◌}
use mathlib.Core.Path.{◌≡◌}
use mathlib.Core.Option.{Option, none, some}
use mathlib.Core.List.{List, [], ◌∷◌}
use native.Mathlib.Omega.{arith}
use unified_service_schedule.Common.Tests.{leb, if◌then◌else◌, Option-cases, Bool-cases}
use unified_service_schedule.Common.Lists.{In, here, there}
use mathlib.Core.Logic.{inl, inr}

-- The better of an element and the best of the rest.
abbrev better {ℓ} : {A : Type ℓ} → (A → ℕ) → A → Option A → Option A
better key x none = some x
better key x (some y) = if leb (key x) (key y) then some x else some y

-- Among equal keys, whose order SQL leaves open, the first.
unfoldable pub least {ℓ} : {A : Type ℓ} → (A → ℕ) → List A → Option A
least key [] = none
least key (x ∷ xs) = better key x (least key xs)

better-In {ℓ} :
    {A : Type ℓ} (key : A → ℕ) (x a : A) (xs : List A) (o : Option A)
    → ((b : A) → o ≡ some b → In b xs)
    → better key x o ≡ some a
    → In a (x ∷ xs)
better-In key x a xs none rest h = here (ground arith)
better-In key x a xs (some y) rest h = elim (Bool-cases (leb (key x) (key y))) [
  | inl k ↦ here (ground (arith, k))
  | inr k ↦ there (rest a (ground (arith, k)))
]

pub least-In {ℓ} :
    {A : Type ℓ} (key : A → ℕ) (xs : List A) (a : A) → least key xs ≡ some a → In a xs
unfolding least
least-In key [] a h = cc
least-In key (x ∷ xs) a h = better-In key x a xs (least key xs) (least-In key xs) h

pub least-some {ℓ} :
    {A : Type ℓ} (key : A → ℕ) (xs : List A) (a : A) → In a xs → (b : A) × (least key xs ≡ some b)
unfolding least
least-some key [] a m = elim m [ ]
least-some key (x ∷ xs) a m = elim (Option-cases (least key xs)) [
  | inl e ↦ (x, rw e)
  | inr (y, e) ↦ (if leb (key x) (key y) then x else y, ground (arith, e))
]

-- No element has a smaller key than the chosen one.
pub least_le {ℓ} :
    {A : Type ℓ} (key : A → ℕ) (xs : List A) (a b : A)
    → least key xs ≡ some a
    → In b xs
    → key a ≤ key b
unfolding least
least_le key [] a b h m = cc
least_le key (x ∷ xs) a b h (here e) = elim (Option-cases (least key xs)) [
  | inl n ↦ ground (arith, n, e)
  | inr (y, s) ↦ ground (arith, s, e)
]
least_le key (x ∷ xs) a b h (there m) =
    let (y, s) = least-some key xs b m in ground (arith, s, least_le key xs y b s m)
