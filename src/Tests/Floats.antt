-- ===== src/Tests/Floats.antt =====
-- A toy arithmetic on 32-bit patterns that has the laws of FloatOps: whole numbers from 1 on are
-- patterns from that of 1.0 on, and a product is 0.
use chainpoint_core.Prelude.{
  ℕ, zero, suc, ◌+◌, ◌-◌, ◌%◌, ◌≤◌, ◌<◌, ℤ, pos, negsuc, Bool, false, not, ◌&&◌, ltb, leb, ◌==◌,
  if◌then◌else◌, ◌≡◌, ◌≢◌, refl, arith,
}
use chainpoint_core.FloatOps.{FloatOps, FloatLaws, float_one}

abbrev toy_nan : ℕ → Bool
toy_nan x = ltb 0x7f800000 (x % 0x80000000)

abbrev toy_of_int64 : ℤ → ℕ
toy_of_int64 (pos zero) = 0
toy_of_int64 (pos (suc n)) = if ltb n 0x800000 then 0x3f800000 + n else 0x40000000
toy_of_int64 (negsuc n) = 0x3f800000

abbrev toy_lt : ℕ → ℕ → Bool
toy_lt x y = not (toy_nan x) && (not (toy_nan y) && ltb x y)

abbrev toy_add : ℕ → ℕ → ℕ
toy_add x y = if toy_nan y then y else x

abbrev toy_sub : ℕ → ℕ → ℕ
toy_sub x y =
    if toy_nan x then x else if leb x 0x3f800000 then 0 else if leb x 0x40000000 then x - 1 else x

abbrev toy_mul : ℕ → ℕ → ℕ
toy_mul a b = if toy_nan b then b else 0

abbrev toy_div : ℕ → ℕ → ℕ
toy_div a b = if b == 0 then 0x7fc00000 else 0

abbrev pub toy_floats : FloatOps
toy_floats = record {
  of_int64 = toy_of_int64;
  add = toy_add;
  sub = toy_sub;
  mul = toy_mul;
  div = toy_div;
  lt = toy_lt;
}

toy_of_int64_small : (n : ℤ) → toy_of_int64 n ≤ 0x40000000
toy_of_int64_small (pos zero) = omega arith
toy_of_int64_small (pos (suc n)) = ground arith
toy_of_int64_small (negsuc n) = omega arith

toy_of_int64_nonzero : (n : ℤ) → n ≢ pos 0 → (toy_of_int64 n == 0) ≡ false
toy_of_int64_nonzero (pos zero) h = absurd (h refl)
toy_of_int64_nonzero (pos (suc n)) h = ground arith
toy_of_int64_nonzero (negsuc n) h = refl

toy_mul_zero :
    (d a p : ℤ)
    → p ≢ pos 0
    → toy_mul (toy_of_int64 d) (toy_div (toy_of_int64 a) (toy_of_int64 p)) ≡ 0
toy_mul_zero d a p h = rw (toy_of_int64_nonzero p h) refl

toy_of_int64_mono : (m n : ℕ) → m ≤ n → toy_of_int64 (pos m) ≤ toy_of_int64 (pos n)
toy_of_int64_mono zero n h = omega arith
toy_of_int64_mono (suc m) zero h = absurd (omega arith)
toy_of_int64_mono (suc m) (suc n) h = ground arith

toy_lt_of_le :
    (m n x : ℕ)
    → m ≤ n
    → toy_lt (toy_of_int64 (pos m)) x ≡ false
    → toy_lt (toy_of_int64 (pos n)) x ≡ false
toy_lt_of_le m n x h k =
    ground (arith, toy_of_int64_mono m n h, toy_of_int64_small (pos m), toy_of_int64_small (pos n))

toy_sub_one_le :
    (n x : ℕ)
    → n < 0x800000
    → toy_lt (toy_of_int64 (pos (suc n))) x ≡ false
    → toy_lt (toy_of_int64 (pos n)) (toy_sub x float_one) ≡ false
toy_sub_one_le zero x h k = ground arith
toy_sub_one_le (suc n) x h k = ground arith

pub toy_laws : FloatLaws toy_floats
toy_laws = record {
  lt_irrefl = λ x. ground arith;
  lt_nan = λ x y h. ground arith;
  lt_nan_right = λ x y h. ground arith;
  add_nan = λ x y h. ground arith;
  sub_nan = λ x y h. ground arith;
  mul_nan = λ x y h. ground arith;
  div_zero = ground arith;
  of_int64_finite = λ n h. let k = toy_of_int64_small n in omega arith;
  refill_finite = λ d a p hd ha hp h. rw (toy_mul_zero d a p h) (omega arith);
  add_not_nan = λ x y h k. ground arith;
  sub_one_not_nan = λ x h. ground arith;
  lt_of_le = toy_lt_of_le;
  sub_one_le = toy_sub_one_le;
  lt_one = λ x h k. ground arith;
  no_refill = λ n x a p ha hp h k. rw (toy_mul_zero (pos 0) a p h) k;
}
