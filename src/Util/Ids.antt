-- ===== src/Util/Ids.antt =====
-- util/util.go: IsUUID and IsULID, the two kinds of proof ids.
use chainpoint_core.Prelude.{
  ℕ, zero, suc, Str, Bool, true, false, List, [], ◌∷◌, leb, ◌==◌, ◌&&◌, ◌||◌,
}

abbrev within : ℕ → ℕ → ℕ → Bool
within lo hi c = leb lo c && leb c hi

-- [0-9a-fA-F]
unfoldable pub is_hex_char : ℕ → Bool
is_hex_char c = within 48 57 c || (within 97 102 c || within 65 70 c)

-- [89abAB]
unfoldable pub is_variant_char : ℕ → Bool
is_variant_char c = within 56 57 c || (within 97 98 c || within 65 66 c)

-- [0123456789ABCDEFGHJKMNPQRSTVWXYZ]
unfoldable pub is_ulid_char : ℕ → Bool
is_ulid_char c =
    within 48 57 c
    || (within 65 72 c
        || (within 74 75 c || (within 77 78 c || (within 80 84 c || within 86 90 c))))

-- The text is one character of each class, and nothing more.
unfoldable pub matches : List (ℕ → Bool) → Str → Bool
matches [] [] = true
matches [] (c ∷ cs) = false
matches (p ∷ ps) [] = false
matches (p ∷ ps) (c ∷ cs) = p c && matches ps cs

abbrev pub times : ℕ → (ℕ → Bool) → List (ℕ → Bool) → List (ℕ → Bool)
times zero p rest = rest
times (suc n) p rest = p ∷ times n p rest

abbrev exactly : ℕ → ℕ → Bool
exactly c d = d == c

abbrev pub uuid_pattern : List (ℕ → Bool)
uuid_pattern = times 8 is_hex_char (
    exactly 45
    ∷ times 4 is_hex_char (
        exactly 45
        ∷ exactly 49
        ∷ times 3 is_hex_char (
            exactly 45
            ∷ is_variant_char
            ∷ times 3 is_hex_char (exactly 45 ∷ times 12 is_hex_char []))))

-- IsUUID
unfoldable pub is_uuid : Str → Bool
unfolding matches is_hex_char is_variant_char
is_uuid proof_id = matches uuid_pattern proof_id

-- IsULID
unfoldable pub is_ulid : Str → Bool
unfolding matches is_ulid_char
is_ulid proof_id = matches (times 26 is_ulid_char []) proof_id
