-- ===== src/Booking/CatalogClient/Reading.antt =====
-- The read loop of CatalogClient.get, in backend/services/booking/catalog_client.go, on a body that
-- comes in pieces of any sizes.
use unified_service_schedule.Common.{
  ℕ, zero, suc, ◌<◌, ◌≤◌, ◌≡◌, refl, ap, Bool, true, ◌&&◌, ◌||◌, Option, none, some, List, [], ◌∷◌,
  ◌++◌, take, length, leb, arith, if◌then◌else◌, Bool-cases, inl, inr, false, ◌⊎◌, eqb, ◌∙◌,
}
use mathlib.Core.List.{append_assoc, append-nil}
use unified_service_schedule.Booking.CatalogClient.{Read, is_empty}

-- What the network decides: how many bytes are there at each read, none included, whether the read
-- fails, with whatever bytes it has, and whether io.EOF comes with the last bytes or by itself.
pub record Reader : Type 0 where
  pub size : ℕ → ℕ
  pub fails : ℕ → Bool
  pub is_eager : ℕ → Bool

abbrev drop : ℕ → List ℕ → List ℕ
drop zero bs = bs
drop (suc n) [] = []
drop (suc n) (b ∷ bs) = drop n bs

-- The buffer `tmp` has 2048 bytes.
abbrev count : ℕ → ℕ
count n = if leb 2048 n then 2048 else n

-- The k-th Body.Read, with what is left of the body.
unfoldable pub read_piece : Reader → ℕ → List ℕ → Read × List ℕ
read_piece r k [] = (record { bytes = []; is_error = true }, [])
read_piece r k (b ∷ bs) =
    let n = count (r.size k) in
    let rest = drop n (b ∷ bs) in
    (
      record { bytes = take n (b ∷ bs); is_error = r.fails k || (r.is_eager k && is_empty rest) },
      rest,
    )

abbrev after : List ℕ → Option (List ℕ) → Option (List ℕ)
after bs none = none
after bs (some more) = some (bs ++ more)

-- The loop, with at most `fuel` reads.
unfoldable pub read_loop : Reader → ℕ → ℕ → List ℕ → Option (List ℕ)
unfolding read_piece
read_loop r zero k body = none
read_loop r (suc fuel) k body =
    let (x, rest) = read_piece r k body in
    let more = read_loop r fuel (suc k) rest in
    if is_empty x.bytes || x.is_error then some x.bytes else after x.bytes more

take-drop : (n : ℕ) (bs : List ℕ) → take n bs ++ drop n bs ≡ bs
take-drop zero bs = refl
take-drop (suc n) [] = refl
take-drop (suc n) (b ∷ bs) = ap (λ l. b ∷ l) (take-drop n bs)

length-drop : (n : ℕ) (bs : List ℕ) → length (drop n bs) ≤ length bs
length-drop zero bs = omega arith
length-drop (suc n) [] = omega arith
length-drop (suc n) (b ∷ bs) = let h = length-drop n bs in omega arith

take_whole : (n : ℕ) (bs : List ℕ) → is_empty (drop n bs) ≡ true → take n bs ≡ bs
take_whole zero [] h = refl
take_whole zero (b ∷ bs) h = cc
take_whole (suc n) [] h = refl
take_whole (suc n) (b ∷ bs) h = ap (λ l. b ∷ l) (take_whole n bs h)

-- The k-th read fails or brings no bytes.
abbrev is_bad : Reader → ℕ → Bool
is_bad r k = r.fails k || eqb (r.size k) 0

-- The bytes that come of a body from the k-th read on, up to a bad read and with the bytes that it
-- brings.
pub data Comes (r : Reader) : ℕ → List ℕ → List ℕ → Type 0 where
  ended : (k : ℕ) → Comes r k [] []
  bad : (k : ℕ) (body : List ℕ) → is_bad r k ≡ true → Comes r k body (take (count (r.size k)) body)
  last :
      (k : ℕ) (body : List ℕ)
      → is_bad r k ≡ false
      → drop (count (r.size k)) body ≡ []
      → Comes r k body body
  goes_on :
      (k : ℕ) (body more : List ℕ)
      → is_bad r k ≡ false
      → Comes r (suc k) (drop (count (r.size k)) body) more
      → Comes r k body (take (count (r.size k)) body ++ more)

-- What the loop gives of a body from the k-th read on: what comes up to a bad read, which is all of
-- the body if no read is bad.
pub record GotBefore (r : Reader) (k : ℕ) (body : List ℕ) (result : Option (List ℕ)) : Type 0 where
  pub got : List ℕ
  pub lost : List ℕ
  pub gives : result ≡ some got
  pub comes : Comes r k body got
  pub splits : got ++ lost ≡ body
  pub cut : (lost ≡ []) ⊎ ((j : ℕ) × (k ≤ j) × (is_bad r j ≡ true))

goes_on-GotBefore :
    (r : Reader) (k : ℕ) (body : List ℕ) (result : Option (List ℕ))
    → is_bad r k ≡ false
    → GotBefore r (suc k) (drop (count (r.size k)) body) result
    → GotBefore r k body (after (take (count (r.size k)) body) result)
goes_on-GotBefore r k body result good h =
    let n = count (r.size k) in
    record {
      got = take n body ++ h.got;
      lost = h.lost;
      gives = rw h.gives refl;
      comes = goes_on k body h.got good h.comes;
      splits =
          append_assoc (take n body) h.got h.lost
          ∙ ap (λ l. take n body ++ l) h.splits
          ∙ take-drop n body;
      cut = elim h.cut [ inl e ↦ inl e | inr (j, le, c) ↦ inr (j, omega (arith, le), c) ];
    }

count-suc : (n : ℕ) → eqb n 0 ≡ false → (m : ℕ) × (count n ≡ suc m)
count-suc zero h = cc
count-suc (suc n) h = elim (Bool-cases (leb 2048 (suc n))) [
  | inl e ↦ (2047, rw e refl)
  | inr e ↦ (n, rw e refl)
]

is_empty-eq : (bs : List ℕ) → is_empty bs ≡ true → bs ≡ []
is_empty-eq [] h = refl
is_empty-eq (b ∷ bs) h = cc

bad_piece :
    (r : Reader) (k b : ℕ) (bs : List ℕ) (final : Bool)
    → is_bad r k ≡ true
    → (is_empty (take (count (r.size k)) (b ∷ bs)) || (r.fails k || final)) ≡ true
bad_piece r k b bs final h = elim (Bool-cases (r.fails k)) [
  | inl f ↦ ground (arith, f)
  | inr f ↦ let z : r.size k ≡ 0 = ground (arith, f, h) in rw z refl
]

shorter :
    (r : Reader) (fuel k b : ℕ) (bs : List ℕ)
    → is_bad r k ≡ false
    → length (b ∷ bs) < suc fuel
    → length (drop (count (r.size k)) (b ∷ bs)) < fuel
shorter r fuel k b bs good h =
    let (m, e) = count-suc (r.size k) (ground (arith, good)) in
    let less = length-drop m bs in rw e (omega (arith, less, h))

good_piece :
    (r : Reader) (k b : ℕ) (bs : List ℕ) (final : Bool)
    → is_bad r k ≡ false
    → (is_empty (take (count (r.size k)) (b ∷ bs)) || (r.fails k || final)) ≡ final
good_piece r k b bs final h =
    let (m, e) = count-suc (r.size k) (ground (arith, h)) in
    let works : r.fails k ≡ false = ground (arith, h) in rw (e, works) refl

good_read :
    (r : Reader) (fuel k b : ℕ) (bs : List ℕ)
    → is_bad r k ≡ false
    → GotBefore r
        (suc k)
        (drop (count (r.size k)) (b ∷ bs))
        (read_loop r fuel (suc k) (drop (count (r.size k)) (b ∷ bs)))
    → GotBefore r k (b ∷ bs) (read_loop r (suc fuel) k (b ∷ bs))
unfolding read_loop read_piece
good_read r fuel k b bs good rest =
    let n = count (r.size k) in
    let at_end = r.is_eager k && is_empty (drop n (b ∷ bs)) in
    let stops = good_piece r k b bs at_end good in
    elim (Bool-cases at_end) [
      | inl e ↦
          let none_left : is_empty (drop n (b ∷ bs)) ≡ true = ground (arith, e) in
          record {
            got = b ∷ bs;
            lost = [];
            gives = rw (stops, e) (ap (λ l. some l) (take_whole n (b ∷ bs) none_left));
            comes = last k (b ∷ bs) good (is_empty-eq (drop n (b ∷ bs)) none_left);
            splits = append-nil (b ∷ bs);
            cut = inl refl;
          }
      | inr e ↦
          rw (stops, e)
            (goes_on-GotBefore r k (b ∷ bs) (read_loop r fuel (suc k) (drop n (b ∷ bs))) good rest)
    ]

-- Whatever the network does, the loop ends after one read more than the body has bytes, at most. It
-- gives the bytes that come up to the first read that fails or brings none, and so the whole body
-- if there is no such read.
pub read_loop_ends :
    (r : Reader) (fuel k : ℕ) (body : List ℕ)
    → length body < fuel
    → GotBefore r k body (read_loop r fuel k body)
unfolding read_loop read_piece
read_loop_ends r zero k body h = absurd (omega arith)
read_loop_ends r (suc fuel) k [] h = record {
  got = [];
  lost = [];
  gives = refl;
  comes = ended k;
  splits = refl;
  cut = inl refl;
}
read_loop_ends r (suc fuel) k (b ∷ bs) h = elim (Bool-cases (is_bad r k)) [
  | inl q ↦
      let n = count (r.size k) in
      let stops = bad_piece r k b bs (r.is_eager k && is_empty (drop n (b ∷ bs))) q in
      record {
        got = take n (b ∷ bs);
        lost = drop n (b ∷ bs);
        gives = rw stops refl;
        comes = bad k (b ∷ bs) q;
        splits = take-drop n (b ∷ bs);
        cut = inr (k, omega arith, q);
      }
  | inr q ↦
      good_read r fuel k b bs q (
        read_loop_ends r fuel (suc k) (drop (count (r.size k)) (b ∷ bs))
          (shorter r fuel k b bs q h))
]
