-- ===== src/Uuid/Parse.antt =====
-- The reading of an id: 8-4-4-4-12 hexadecimal digits.
use Prim.Native.Char.{Char, code}
use unified_service_schedule.Common.{
  ℕ, zero, suc, ◌+◌, ◌*◌, ◌/◌, ◌%◌, ◌<◌, String, ◌≡◌, refl, subst, sym, ap, ◌∙◌, Bool, true, false,
  ◌&&◌, Option, none, some, List, [], ◌∷◌, ◌++◌, All, length, Bool-cases, inl, inr, eqb, arith,
  if◌then◌else◌,
}
use unified_service_schedule.Uuid.{
  hextable, hex_digit, encode_to_string, stamp, Block, bytes, append, new_uuid, new_request_id,
}

infixl 5 ◌>>=◌
abbrev ◌>>=◌ : {A B : Type 0} → Option A → (A → Option B) → Option B
none >>= f = none
some a >>= f = f a

abbrev index_of : Char → List Char → Option ℕ
index_of c [] = none
index_of c (d ∷ ds) = if eqb (code c) (code d) then some 0 else (do i ← index_of c ds; some (suc i))

abbrev digit_value : Char → Option ℕ
digit_value c = index_of c hextable

-- So many bytes, and the rest of the text.
abbrev read_bytes : ℕ → String → Option (List ℕ × String)
read_bytes zero s = some ([], s)
read_bytes (suc n) (String.◌∷◌ c (String.◌∷◌ d s)) = do
  h ← digit_value c
  l ← digit_value d
  (bs, t) ← read_bytes n s
  some ((h * 16 + l) ∷ bs, t)
read_bytes (suc n) _ = none

abbrev read_dash : String → Option String
read_dash String.[] = none
read_dash (String.◌∷◌ c s) = if eqb (code c) 45 then some s else none

abbrev at_end : List ℕ → String → Option (List ℕ)
at_end bs String.[] = some bs
at_end bs _ = none

-- The sixteen bytes of an id.
unfoldable pub parse : String → Option (List ℕ)
parse s = do
  (a, s1) ← read_bytes 4 s
  s2 ← read_dash s1
  (b, s3) ← read_bytes 2 s2
  s4 ← read_dash s3
  (c, s5) ← read_bytes 2 s4
  s6 ← read_dash s5
  (d, s7) ← read_bytes 2 s6
  s8 ← read_dash s7
  (e, s9) ← read_bytes 6 s8
  at_end (a ++ b ++ c ++ d ++ e) s9

abbrev below : ℕ → (ℕ → Bool) → Bool
below zero p = true
below (suc k) p = p k && below k p

below-lt : (k : ℕ) (p : ℕ → Bool) (n : ℕ) → below k p ≡ true → n < k → p n ≡ true
below-lt zero p n h lt = absurd (omega arith)
below-lt (suc k) p n h lt = elim (Bool-cases (eqb n k)) [
  | inl e ↦ let same : k ≡ n = ground (arith, e) in ap p (sym same) ∙ ground (arith, h)
  | inr e ↦ below-lt k p n (ground (arith, h)) (ground (arith, e))
]

abbrev is_digit_of : ℕ → Option ℕ → Bool
is_digit_of n none = false
is_digit_of n (some m) = eqb m n

is_digit_of-some : (n : ℕ) (o : Option ℕ) → is_digit_of n o ≡ true → o ≡ some n
is_digit_of-some n none h = cc
is_digit_of-some n (some m) h = ground arith

digits : below 16 (λ n. is_digit_of n (digit_value (hex_digit n))) ≡ true
unfolding hex_digit
digits = refl

digit_value-hex_digit : (n : ℕ) → n < 16 → digit_value (hex_digit n) ≡ some n
digit_value-hex_digit n lt =
    is_digit_of-some n _ (below-lt 16 (λ n. is_digit_of n (digit_value (hex_digit n))) n digits lt)

abbrev pub AreBytes : List ℕ → Type 0
AreBytes bs = All (λ b. b < 256) bs

read_bytes-encode :
    (bs : List ℕ) (s : String)
    → AreBytes bs
    → read_bytes (length bs) (append (encode_to_string bs) s) ≡ some (bs, s)
unfolding encode_to_string
read_bytes-encode [] s h = refl
read_bytes-encode (b ∷ bs) s (lt, h) =
    let high = digit_value-hex_digit (b / 16) (omega arith) in
    let low = digit_value-hex_digit (b % 16) (omega arith) in
    let whole : b / 16 * 16 + b % 16 ≡ b = omega arith in
    rw (high, low, read_bytes-encode bs s h) (ap (λ x. some (x ∷ bs, s)) whole)

read_group :
    (n : ℕ) (bs : List ℕ) (s : String)
    → length bs ≡ n
    → AreBytes bs
    → read_bytes n (append (encode_to_string bs) s) ≡ some (bs, s)
read_group n bs s e h =
    subst (λ k. read_bytes k (append (encode_to_string bs) s) ≡ some (bs, s)) e
      (read_bytes-encode bs s h)

abbrev grouped : List ℕ → List ℕ → List ℕ → List ℕ → List ℕ → String
grouped a b c d e = append (encode_to_string a) (
    append "-" (
      append (encode_to_string b) (
        append "-" (
          append (encode_to_string c) (
            append "-"
              (append (encode_to_string d) (append "-" (append (encode_to_string e) ""))))))))

parse-grouped :
    (a b c d e : List ℕ)
    → length a ≡ 4
    → length b ≡ 2
    → length c ≡ 2
    → length d ≡ 2
    → length e ≡ 6
    → AreBytes a
    → AreBytes b
    → AreBytes c
    → AreBytes d
    → AreBytes e
    → parse (grouped a b c d e) ≡ some (a ++ b ++ c ++ d ++ e)
unfolding parse
parse-grouped a b c d e la lb lc ld le ba bb bc bd be =
    rw
      (
        read_group 4 a _ la ba,
        read_group 2 b _ lb bb,
        read_group 2 c _ lc bc,
        read_group 2 d _ ld bd,
        read_group 6 e "" le be,
      )
      refl

parse-stamped : (b : Block) → AreBytes (bytes b) → parse (new_uuid b) ≡ some (stamp (bytes b))
unfolding new_uuid stamp
parse-stamped b h =
    parse-grouped (b.b0 ∷ b.b1 ∷ b.b2 ∷ b.b3 ∷ []) (b.b4 ∷ b.b5 ∷ []) ((b.b6 % 16 + 64) ∷ b.b7 ∷ [])
      ((b.b8 % 64 + 128) ∷ b.b9 ∷ []) (b.b10 ∷ b.b11 ∷ b.b12 ∷ b.b13 ∷ b.b14 ∷ b.b15 ∷ []) refl refl
      refl refl refl (ground (arith, h)) (ground (arith, h)) (ground (arith, h)) (ground (arith, h))
      (ground (arith, h))

parse-drawn : (b : Block) → AreBytes (bytes b) → parse (new_request_id b) ≡ some (bytes b)
unfolding new_request_id
parse-drawn b h =
    parse-grouped (b.b0 ∷ b.b1 ∷ b.b2 ∷ b.b3 ∷ []) (b.b4 ∷ b.b5 ∷ []) (b.b6 ∷ b.b7 ∷ [])
      (b.b8 ∷ b.b9 ∷ []) (b.b10 ∷ b.b11 ∷ b.b12 ∷ b.b13 ∷ b.b14 ∷ b.b15 ∷ []) refl refl refl refl
      refl (ground (arith, h)) (ground (arith, h)) (ground (arith, h)) (ground (arith, h))
      (ground (arith, h))

-- The bytes of a random UUID of RFC 4122 that were drawn as `b`: the high half of the seventh is the
-- version 4, the two high bits of the ninth are the variant, 10, and the other bits are as drawn.
pub record IsVersion4 (b : Block) (bs : List ℕ) : Type 0 where
  pub version_byte : ℕ
  pub variant_byte : ℕ
  pub version : version_byte / 16 ≡ 4
  pub version_rest : version_byte % 16 ≡ b.b6 % 16
  pub variant : variant_byte / 64 ≡ 2
  pub variant_rest : variant_byte % 64 ≡ b.b8 % 64
  pub others : bs ≡ bytes (record b { b6 = version_byte; b8 = variant_byte })

stamp-IsVersion4 : (b : Block) → IsVersion4 b (stamp (bytes b))
unfolding stamp
stamp-IsVersion4 b = record {
  version_byte = b.b6 % 16 + 64;
  variant_byte = b.b8 % 64 + 128;
  version = omega arith;
  version_rest = omega arith;
  variant = omega arith;
  variant_rest = omega arith;
  others = refl;
}

-- The two kinds of ids are texts of 8-4-4-4-12 hexadecimal digits, from which sixteen bytes can be
-- read again: of an id of NewUUID those that were drawn, with version 4 and the variant of RFC 4122
-- in their places and every other bit as drawn, and of an id of the gateway just those that were
-- drawn.
pub ids_roundtrip :
    (b : Block)
    → AreBytes (bytes b)
    → ((bs : List ℕ) × (parse (new_uuid b) ≡ some bs) × IsVersion4 b bs)
      × (parse (new_request_id b) ≡ some (bytes b))
ids_roundtrip b h = ((stamp (bytes b), parse-stamped b h, stamp-IsVersion4 b), parse-drawn b h)
