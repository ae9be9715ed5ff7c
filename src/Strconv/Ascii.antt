-- ===== src/Strconv/Ascii.antt =====
-- The decimal text of a number is ASCII.
use chainpoint_core.Prelude.{
  ℕ, zero, suc, ◌+◌, ◌/◌, ◌%◌, ◌<◌, ℤ, pos, negsuc, ltb, Str, [], ◌∷◌, ◌++◌, Bool-cases, inl, inr,
  arith,
}
use chainpoint_core.LevelDb.{IsAscii}
use chainpoint_core.Strconv.{decimal, format_int}

snoc-IsAscii : (a : Str) (c : ℕ) → IsAscii a → c < 128 → IsAscii (a ++ c ∷ [])
snoc-IsAscii [] c h k = (k, tt)
snoc-IsAscii (x ∷ a) c (h, hs) k = (h, snoc-IsAscii a c hs k)

decimal-IsAscii : (f n : ℕ) → IsAscii (decimal f n)
unfolding decimal
decimal-IsAscii zero n = tt
decimal-IsAscii (suc f) n = elim (Bool-cases (ltb n 10)) [
  | inl e ↦ rw e (ground arith, tt)
  | inr e ↦
      rw e
        (snoc-IsAscii (decimal f (n / 10)) (48 + n % 10) (decimal-IsAscii f (n / 10)) (omega arith))
]

pub format_int-IsAscii : (n : ℤ) → IsAscii (format_int n)
unfolding format_int
format_int-IsAscii (pos n) = decimal-IsAscii (suc n) n
format_int-IsAscii (negsuc n) = (omega arith, decimal-IsAscii (suc (suc n)) (suc n))
