-- ===== src/Strconv/Hex.antt =====
-- encoding/hex
use chainpoint_core.Prelude.{
  ℕ, ◌+◌, ◌-◌, ◌*◌, ◌/◌, ◌%◌, ◌<◌, Str, ◌&&◌, Bool, true, false, Option, none, some, [], ◌∷◌, ◌≡◌,
  refl, arith, ltb, leb, if◌then◌else◌,
}

unfoldable pub hex_digit : ℕ → ℕ
hex_digit n = if ltb n 10 then 48 + n else 87 + n

-- hex.EncodeToString
unfoldable pub hex_encode : Str → Str
unfolding hex_digit
hex_encode [] = []
hex_encode (b ∷ bs) = hex_digit (b / 16) ∷ hex_digit (b % 16) ∷ hex_encode bs

unfoldable pub hex_value : ℕ → Option ℕ
hex_value c =
    if leb 48 c && leb c 57
    then some (c - 48)
    else if leb 97 c && leb c 102
    then some (c - 87)
    else if leb 65 c && leb c 70
    then some (c - 55)
    else none

pair_value : Option ℕ → Option ℕ → Option ℕ
pair_value (some a) (some b) = some (a * 16 + b)
pair_value (some a) none = none
pair_value none b = none

-- One byte in front of the bytes of the rest; the first bad byte ends the result.
extend : Option ℕ → Str × Bool → Str × Bool
extend none rest = ([], false)
extend (some b) (bs, good) = (b ∷ bs, good)

-- hex.DecodeString: the bytes up to the first bad pair, and whether there was no error
unfoldable pub hex_decode : Str → Str × Bool
unfolding hex_value pair_value extend
hex_decode [] = ([], true)
hex_decode (a ∷ []) = ([], false)
hex_decode (a ∷ b ∷ cs) = extend (pair_value (hex_value a) (hex_value b)) (hex_decode cs)

-- Every value is a byte.
abbrev pub IsBytes : Str → Type 0
IsBytes [] = Unit {0}
IsBytes (b ∷ bs) = (b < 256) × IsBytes bs

pub hex_value-hex_digit : (n : ℕ) → n < 16 → hex_value (hex_digit n) ≡ some n
unfolding hex_value hex_digit
hex_value-hex_digit n h = ground arith

pair_value_hex :
    (b : ℕ)
    → b < 256
    → pair_value (hex_value (hex_digit (b / 16))) (hex_value (hex_digit (b % 16))) ≡ some b
unfolding pair_value
pair_value_hex b h = ground (arith, hex_value-hex_digit (b / 16), hex_value-hex_digit (b % 16))

-- Decoding the hexadecimal text of a string of bytes gives the bytes back, and no error.
pub hex_decode-hex_encode : (bs : Str) → IsBytes bs → hex_decode (hex_encode bs) ≡ (bs, true)
unfolding hex_decode hex_encode
hex_decode-hex_encode [] h = refl
hex_decode-hex_encode (b ∷ bs) h = ground (arith, pair_value_hex b, hex_decode-hex_encode bs h.1)

hex_value_lt : (c v : ℕ) → hex_value c ≡ some v → v < 16
unfolding hex_value
hex_value_lt c v h = ground arith

pair_value_lt :
    (a b : Option ℕ) (v : ℕ)
    → ((x : ℕ) → a ≡ some x → x < 16)
    → ((x : ℕ) → b ≡ some x → x < 16)
    → pair_value a b ≡ some v
    → v < 256
unfolding pair_value
pair_value_lt (some a) (some b) v p q h = ground (arith, p a refl, q b refl)
pair_value_lt (some a) none v p q h = cc
pair_value_lt none b v p q h = cc

extend-IsBytes :
    (o : Option ℕ) (r : Str × Bool)
    → ((x : ℕ) → o ≡ some x → x < 256)
    → IsBytes r.0
    → IsBytes (extend o r).0
unfolding extend
extend-IsBytes none r p h = tt
extend-IsBytes (some b) (bs, good) p h = (p b refl, h)

-- What a text decodes to are bytes.
pub hex_decode-IsBytes : (t : Str) → IsBytes (hex_decode t).0
unfolding hex_decode
hex_decode-IsBytes [] = tt
hex_decode-IsBytes (a ∷ []) = tt
hex_decode-IsBytes (a ∷ b ∷ cs) =
    extend-IsBytes (pair_value (hex_value a) (hex_value b)) (hex_decode cs)
      (λ x e. pair_value_lt (hex_value a) (hex_value b) x (hex_value_lt a) (hex_value_lt b) e)
      (hex_decode-IsBytes cs)
