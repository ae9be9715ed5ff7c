-- ===== src/Strconv.antt =====
-- strconv.ParseInt and strconv.FormatInt at base 10, and encoding/hex, as the code uses them;
-- `int64_to_byte` and `byte_to_int64` of util/util.go stand on the first two.
pub mod Hex
pub mod RoundTrip
pub mod Ascii
use chainpoint_core.Prelude.{
  ℕ, zero, suc, ◌+◌, ◌-◌, ◌*◌, ◌/◌, ◌%◌, ℤ, pos, negsuc, Str, Bool, true, false, ◌&&◌, Option, none,
  some, [], ◌∷◌, ◌++◌, ltb, leb, ◌==◌, if◌then◌else◌, int64_half, int64_mod,
}

pub data NumError : Type 0 where
  syntax range : NumError

abbrev pub is_digit : ℕ → Bool
is_digit c = leb 48 c && leb c 57

-- The loop of ParseUint: `inr`-like results are the error with the value that comes with it.
pub parse_uint : ℕ → Str → ℕ × Option NumError
parse_uint n [] = (n, none)
parse_uint n (c ∷ cs) =
    let n1 = n * 10 + (c - 48) in
    let rest = parse_uint n1 cs in
    if is_digit c
    then if ltb n1 int64_mod then rest else (int64_mod - 1, some range)
    else (0, some syntax)

-- The range check of ParseInt on the magnitude, and the sign.
signed : Bool → ℕ × Option NumError → ℤ × Option NumError
signed neg (u, some syntax) = (pos 0, some syntax)
signed false (u, e) = if leb int64_half u then (pos (int64_half - 1), some range) else (pos u, none)
signed true (u, e) =
    if ltb int64_half u
    then (negsuc (int64_half - 1), some range)
    else if u == 0
    then (pos 0, none)
    else (negsuc (u - 1), none)

-- An empty run of digits is a syntax error.
parse_magnitude : Bool → Str → ℤ × Option NumError
parse_magnitude neg [] = (pos 0, some syntax)
parse_magnitude neg (c ∷ cs) = signed neg (parse_uint 0 (c ∷ cs))

-- strconv.ParseInt(s, 10, 64)
unfoldable pub parse_int : Str → ℤ × Option NumError
unfolding parse_uint signed parse_magnitude
parse_int [] = (pos 0, some syntax)
parse_int (c ∷ cs) =
    if c == b'-'
    then parse_magnitude true cs
    else if c == b'+'
    then parse_magnitude false cs
    else parse_magnitude false (c ∷ cs)

-- The decimal digits of a number; the fuel is above the number.
pub decimal : ℕ → ℕ → Str
decimal zero n = []
decimal (suc f) n =
    let more = decimal f (n / 10) ++ (48 + n % 10) ∷ [] in if ltb n 10 then (48 + n) ∷ [] else more

-- strconv.FormatInt(n, 10)
unfoldable pub format_int : ℤ → Str
unfolding decimal
format_int (pos n) = decimal (suc n) n
format_int (negsuc n) = b'-' ∷ decimal (suc (suc n)) (suc n)

-- `binary.MaxVarintLen64`, which is the base, is 10.
unfoldable pub int64_to_byte : ℤ → Str
unfolding format_int
int64_to_byte = format_int

unfoldable pub byte_to_int64 : Str → ℤ
unfolding parse_int
byte_to_int64 arr = (parse_int arr).0
