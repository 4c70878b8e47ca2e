-- ===== src/Booking/Fingerprint.antt =====
-- The request fingerprint of backend/services/booking/booking.go. SHA-256 with its hexadecimal
-- print is a parameter, on the code points of what is written to it.
use Prim.Native.Char.{code}
use unified_service_schedule.Common.{
  ℕ, String, ◌≡◌, ◌≢◌, refl, List, [], ◌∷◌, ◌++◌, map, arith, All,
}

-- The code points of a text.
abbrev pub codes : String → List ℕ
codes String.[] = []
codes (String.◌∷◌ c s) = code c ∷ codes s

-- Each part, then a zero.
unfoldable pub terminated : List (List ℕ) → List ℕ
terminated [] = []
terminated (part ∷ parts) = part ++ 0 ∷ terminated parts

unfoldable pub parts : String → String → String → String → String → String → List (List ℕ)
parts hold dealership customer vehicle service start =
    map codes (hold ∷ dealership ∷ customer ∷ vehicle ∷ service ∷ start ∷ [])

unfoldable pub fingerprint :
    (List ℕ → String) → String → String → String → String → String → String → String
unfolding terminated parts
fingerprint sha256 hold dealership customer vehicle service start =
    sha256 (terminated (parts hold dealership customer vehicle service start))

abbrev pub NulFree : List ℕ → Type 0
NulFree = All (λ c. c ≢ 0)

-- a part without zeros ends where its zero stands
split_part :
    (xs ys rest rest' : List ℕ)
    → NulFree xs
    → NulFree ys
    → (xs ++ 0 ∷ rest) ≡ (ys ++ 0 ∷ rest')
    → (xs ≡ ys) × (rest ≡ rest')
split_part [] [] rest rest' n m e = (refl, ground arith)
split_part [] (y ∷ ys) rest rest' n m e = absurd (m.0 (ground arith))
split_part (x ∷ xs) [] rest rest' n m e = absurd (n.0 (ground arith))
split_part (x ∷ xs) (y ∷ ys) rest rest' n m e =
    let (p, q) = split_part xs ys rest rest' n.1 m.1 (ground arith) in (ground (arith, p), q)

abbrev SameShape : List (List ℕ) → List (List ℕ) → Type 0
SameShape [] [] = Unit {0}
SameShape (x ∷ xs) (y ∷ ys) = SameShape xs ys
SameShape _ _ = ⊥

pub terminated-injective :
    (xs ys : List (List ℕ))
    → SameShape xs ys
    → All NulFree xs
    → All NulFree ys
    → terminated xs ≡ terminated ys
    → xs ≡ ys
unfolding terminated
terminated-injective [] [] s n m e = refl
terminated-injective [] (y ∷ ys) s n m e = absurd s
terminated-injective (x ∷ xs) [] s n m e = absurd s
terminated-injective (x ∷ xs) (y ∷ ys) s n m e =
    let (p, q) = split_part x y _ _ n.0 m.0 e in
    ground (arith, p, terminated-injective xs ys s n.1 m.1 q)
