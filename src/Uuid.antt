-- ===== src/Uuid.antt =====
-- The ids that the servers make: NewUUID of backend/services/booking/store.go, and newRequestID of
-- backend/services/gateway/main.go. The random bytes are arguments.
pub mod Parse
mod Examples
use Prim.Native.Char.{Char}
use Prim.Native.String as String
use unified_service_schedule.Common.{ℕ, zero, suc, ◌+◌, ◌-◌, ◌/◌, ◌%◌, String, List, [], ◌∷◌, take}

abbrev char_at : List Char → ℕ → Char
char_at [] n = "0"
char_at (c ∷ cs) zero = c
char_at (c ∷ cs) (suc n) = char_at cs n

-- the digits of encoding/hex
abbrev pub hextable : List Char
hextable =
    "0" ∷ "1" ∷ "2" ∷ "3" ∷ "4" ∷ "5" ∷ "6" ∷ "7" ∷ "8" ∷ "9" ∷ "a" ∷ "b" ∷ "c" ∷ "d" ∷ "e" ∷ "f"
    ∷ []

unfoldable pub hex_digit : ℕ → Char
hex_digit n = char_at hextable n

-- hex.EncodeToString
unfoldable pub encode_to_string : List ℕ → String
unfolding hex_digit
encode_to_string [] = String.[]
encode_to_string (b ∷ bs) =
    String.◌∷◌ (hex_digit (b / 16)) (String.◌∷◌ (hex_digit (b % 16)) (encode_to_string bs))

abbrev drop : ℕ → List ℕ → List ℕ
drop zero bs = bs
drop (suc n) [] = []
drop (suc n) (b ∷ bs) = drop n bs

abbrev drop_text : ℕ → String → String
drop_text zero s = s
drop_text (suc n) String.[] = String.[]
drop_text (suc n) (String.◌∷◌ c s) = drop_text n s

abbrev take_text : ℕ → String → String
take_text zero s = String.[]
take_text (suc n) String.[] = String.[]
take_text (suc n) (String.◌∷◌ c s) = String.◌∷◌ c (take_text n s)

abbrev pub append : String → String → String
append String.[] t = t
append (String.◌∷◌ c s) t = String.◌∷◌ c (append s t)

-- s[i:j] of a text of one byte for each character
abbrev slice : ℕ → ℕ → String → String
slice i j s = take_text (j - i) (drop_text i s)

-- s[0:8] + "-" + s[8:12] + "-" + s[12:16] + "-" + s[16:20] + "-" + s[20:32]
unfoldable pub dashed : String → String
dashed s = append (slice 0 8 s) (
    append "-" (
      append (slice 8 12 s) (
        append "-" (
          append (slice 12 16 s)
            (append "-" (append (slice 16 20 s) (append "-" (slice 20 32 s))))))))

-- An assignment b[i] = f(b[i]).
unfoldable pub set_at : ℕ → (ℕ → ℕ) → List ℕ → List ℕ
set_at n f [] = []
set_at zero f (b ∷ bs) = f b ∷ bs
set_at (suc n) f (b ∷ bs) = b ∷ set_at n f bs

-- b & 0x0f | 0x40 and b & 0x3f | 0x80 of a byte: the masks keep the low bits, below the bit that is
-- set.
unfoldable pub stamp : List ℕ → List ℕ
unfolding set_at
stamp bs = set_at 8 (λ b. b % 64 + 128) (set_at 6 (λ b. b % 16 + 64) bs)

-- [16]byte
pub record Block : Type 0 where
  pub b0 : ℕ
  pub b1 : ℕ
  pub b2 : ℕ
  pub b3 : ℕ
  pub b4 : ℕ
  pub b5 : ℕ
  pub b6 : ℕ
  pub b7 : ℕ
  pub b8 : ℕ
  pub b9 : ℕ
  pub b10 : ℕ
  pub b11 : ℕ
  pub b12 : ℕ
  pub b13 : ℕ
  pub b14 : ℕ
  pub b15 : ℕ

abbrev pub bytes : Block → List ℕ
bytes b =
    b.b0 ∷ b.b1 ∷ b.b2 ∷ b.b3 ∷ b.b4 ∷ b.b5 ∷ b.b6 ∷ b.b7 ∷ b.b8 ∷ b.b9 ∷ b.b10 ∷ b.b11 ∷ b.b12
    ∷ b.b13 ∷ b.b14 ∷ b.b15 ∷ []

unfoldable pub new_uuid : Block → String
unfolding encode_to_string dashed stamp
new_uuid b = dashed (encode_to_string (stamp (bytes b)))

abbrev slice_bytes : ℕ → ℕ → List ℕ → List ℕ
slice_bytes i j bs = take (j - i) (drop i bs)

-- The format %x-%x-%x-%x-%x on slices of the bytes.
unfoldable pub new_request_id : Block → String
unfolding encode_to_string
new_request_id b = append (encode_to_string (slice_bytes 0 4 (bytes b))) (
    append "-" (
      append (encode_to_string (slice_bytes 4 6 (bytes b))) (
        append "-" (
          append (encode_to_string (slice_bytes 6 8 (bytes b))) (
            append "-" (
              append (encode_to_string (slice_bytes 8 10 (bytes b)))
                (append "-" (encode_to_string (slice_bytes 10 16 (bytes b))))))))))
