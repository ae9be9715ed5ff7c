-- ===== src/Strconv/RoundTrip.antt =====
-- Round trip of the decimal text of an int64.
use chainpoint_core.Prelude.{
  ℕ, zero, suc, ◌+◌, ◌-◌, ◌*◌, ◌/◌, ◌%◌, ◌<◌, ℤ, pos, negsuc, Str, true, false, none, [], ◌∷◌, ◌++◌,
  ◌≡◌, refl, ap, ◌∙◌, Option, arith, IsInt64, int64_mod, int64_half, ltb, Bool-cases, inl, inr,
}
use chainpoint_core.Strconv.{
  NumError, signed, is_digit, parse_uint, parse_int, decimal, format_int, int64_to_byte,
  byte_to_int64,
}

parse_uint_snoc :
    (n c m : ℕ) (ds : Str)
    → parse_uint n ds ≡ (m, none)
    → is_digit c ≡ true
    → m * 10 + (c - 48) < int64_mod
    → parse_uint n (ds ++ c ∷ []) ≡ (m * 10 + (c - 48), none)
unfolding parse_uint
parse_uint_snoc n c m [] p d h = ground arith
parse_uint_snoc n c m (x ∷ ds) p d h = ground (arith, parse_uint_snoc (n * 10 + (x - 48)) c m ds)

parse_uint_digit : (n : ℕ) → n < 10 → parse_uint 0 ((48 + n) ∷ []) ≡ (n, none)
unfolding parse_uint
parse_uint_digit n h = ground arith

parse_uint-decimal : (f n : ℕ) → n < f → n < int64_mod → parse_uint 0 (decimal f n) ≡ (n, none)
unfolding decimal
parse_uint-decimal zero n h k = elim h [ ]
parse_uint-decimal (suc f) n h k = elim (Bool-cases (ltb n 10)) [
  | inl e ↦ rw e (parse_uint_digit n (ground arith))
  | inr e ↦
      let ih = parse_uint-decimal f (n / 10) (ground arith) (omega arith) in
      rw e (
        parse_uint_snoc 0 (48 + n % 10) (n / 10) (decimal f (n / 10)) ih (ground arith)
          (omega arith)
        ∙ ap {B = ℕ × Option NumError} (λ t. (t, none)) (omega arith))
]

decimal_head :
    (f n : ℕ) → n < f → (c : ℕ) × (cs : Str) × (decimal f n ≡ c ∷ cs) × (is_digit c ≡ true)
unfolding decimal
decimal_head zero n h = elim h [ ]
decimal_head (suc f) n h = elim (Bool-cases (ltb n 10)) [
  | inl e ↦ (48 + n, [], rw e refl, ground arith)
  | inr e ↦
      let (c, cs, p, d) = decimal_head f (n / 10) (ground arith) in
      (c, cs ++ (48 + n % 10) ∷ [], rw (e, p) refl, d)
]

-- A text that begins with a digit is read as a magnitude with no sign.
parse_int_digit :
    (c : ℕ) (cs : Str)
    → is_digit c ≡ true
    → parse_int (c ∷ cs) ≡ signed false (parse_uint 0 (c ∷ cs))
unfolding parse_int
parse_int_digit c cs d = ground arith

parse_int_minus :
    (c : ℕ) (cs : Str) → parse_int (b'-' ∷ c ∷ cs) ≡ signed true (parse_uint 0 (c ∷ cs))
unfolding parse_int
parse_int_minus c cs = refl

signed_pos : (m : ℕ) → m < int64_half → signed false (m, none) ≡ (pos m, none)
unfolding signed
signed_pos m k = ground arith

signed_neg : (m : ℕ) → m < int64_half → signed true (suc m, none) ≡ (negsuc m, none)
unfolding signed
signed_neg m k = ground arith

format_int_pos : (n : ℕ) → format_int (pos n) ≡ decimal (suc n) n
unfolding format_int
format_int_pos n = refl

format_int_negsuc : (n : ℕ) → format_int (negsuc n) ≡ b'-' ∷ decimal (suc (suc n)) (suc n)
unfolding format_int
format_int_negsuc n = refl

parse_int-format_int_pos : (n : ℕ) → n < int64_half → parse_int (format_int (pos n)) ≡ (pos n, none)
parse_int-format_int_pos n h =
    let (c, cs, p, d) = decimal_head (suc n) n (omega arith) in
    let q = parse_uint-decimal (suc n) n (omega arith) (omega arith) in
    rw (format_int_pos, p)
      (parse_int_digit c cs d ∙ ap (signed false) (rw (← p) q) ∙ signed_pos n h)

parse_int-format_int_neg :
    (n : ℕ) → n < int64_half → parse_int (format_int (negsuc n)) ≡ (negsuc n, none)
parse_int-format_int_neg n h =
    let (c, cs, p, d) = decimal_head (suc (suc n)) (suc n) (omega arith) in
    let q = parse_uint-decimal (suc (suc n)) (suc n) (omega arith) (omega arith) in
    rw (format_int_negsuc, p)
      (parse_int_minus c cs ∙ ap (signed true) (rw (← p) q) ∙ signed_neg n h)

-- The text of an int64 reads back as that int64: for any int64, `ByteToInt64(Int64ToByte(n)) = n`.
pub byte_to_int64-int64_to_byte : (a : ℤ) → IsInt64 a → byte_to_int64 (int64_to_byte a) ≡ a
unfolding byte_to_int64 int64_to_byte
byte_to_int64-int64_to_byte (pos n) h = ap (λ r. r.0) (parse_int-format_int_pos n h.0)
byte_to_int64-int64_to_byte (negsuc n) h = ap (λ r. r.0) (parse_int-format_int_neg n (omega arith))
