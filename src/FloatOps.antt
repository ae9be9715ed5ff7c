-- ===== src/FloatOps.antt =====
-- float32 as the limiter uses it. A value is its 32 bits. The arithmetic is the machine's: it is a
-- parameter, and the laws below are what IEEE 754 says of the few operations that matter.
use chainpoint_core.Prelude.{
  ℕ, suc, ◌%◌, ◌^◌, ◌≤◌, ◌<◌, ℤ, pos, IsInt64, Bool, true, false, ◌≡◌, ◌≢◌,
}

pub record FloatOps : Type 0 where
  pub of_int64 : ℤ → ℕ
  pub add : ℕ → ℕ → ℕ
  pub sub : ℕ → ℕ → ℕ
  pub mul : ℕ → ℕ → ℕ
  pub div : ℕ → ℕ → ℕ
  pub lt : ℕ → ℕ → Bool

-- The bits of 0.0 and of 1.0.
abbrev pub float_zero : ℕ
float_zero = 0

abbrev pub float_one : ℕ
float_one = 0x3f800000

-- An exponent of ones with a nonzero fraction.
abbrev pub IsNan : ℕ → Type 0
IsNan x = 0x7f800000 < x % 0x80000000

abbrev pub IsFinite : ℕ → Type 0
IsFinite x = x % 0x80000000 < 0x7f800000

pub record FloatLaws (fl : FloatOps) : Type 0 where
  pub lt_irrefl : (x : ℕ) → fl.lt x x ≡ false
  -- a comparison with a NaN is false, and a NaN stays one
  pub lt_nan : (x y : ℕ) → IsNan x → fl.lt x y ≡ false
  pub lt_nan_right : (x y : ℕ) → IsNan y → fl.lt x y ≡ false
  pub add_nan : (x y : ℕ) → IsNan y → IsNan (fl.add x y)
  pub sub_nan : (x y : ℕ) → IsNan x → IsNan (fl.sub x y)
  pub mul_nan : (x y : ℕ) → IsNan y → IsNan (fl.mul x y)
  -- 0 / 0 is a NaN
  pub div_zero : IsNan (fl.div (fl.of_int64 (pos 0)) (fl.of_int64 (pos 0)))
  -- no int64 is a NaN, and a product of an int64 and a quotient of int64s has no overflow
  pub of_int64_finite : (n : ℤ) → IsInt64 n → IsFinite (fl.of_int64 n)
  pub refill_finite :
      (d a p : ℤ)
      → IsInt64 d
      → IsInt64 a
      → IsInt64 p
      → p ≢ pos 0
      → IsFinite (fl.mul (fl.of_int64 d) (fl.div (fl.of_int64 a) (fl.of_int64 p)))
  pub add_not_nan : (x y : ℕ) → ¬ IsNan x → IsFinite y → ¬ IsNan (fl.add x y)
  pub sub_one_not_nan : (x : ℕ) → ¬ IsNan x → ¬ IsNan (fl.sub x float_one)
  -- the order agrees with that of the small numbers, which are exact
  pub lt_of_le :
      (m n x : ℕ)
      → m ≤ n
      → fl.lt (fl.of_int64 (pos m)) x ≡ false
      → fl.lt (fl.of_int64 (pos n)) x ≡ false
  pub sub_one_le :
      (n x : ℕ)
      → n < 2 ^ 23
      → fl.lt (fl.of_int64 (pos (suc n))) x ≡ false
      → fl.lt (fl.of_int64 (pos n)) (fl.sub x float_one) ≡ false
  pub lt_one :
      (x : ℕ) → ¬ IsNan x → fl.lt (fl.of_int64 (pos 0)) x ≡ false → fl.lt x float_one ≡ true
  -- no time has passed: a product by 0 is a zero, and adding it makes nothing larger
  pub no_refill :
      (n x : ℕ) (a p : ℤ)
      → IsInt64 a
      → IsInt64 p
      → p ≢ pos 0
      → fl.lt (fl.of_int64 (pos n)) x ≡ false
      → fl.lt
          (fl.of_int64 (pos n))
          (fl.add x (fl.mul (fl.of_int64 (pos 0)) (fl.div (fl.of_int64 a) (fl.of_int64 p))))
        ≡ false
