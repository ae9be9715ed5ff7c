-- ===== src/Abci/AppHash.antt =====
-- The application hash of `Commit` is the varint of the height in a buffer of 8 bytes.
use chainpoint_core.Prelude.{
  pad, length-pad, ℕ, zero, suc, ◌+◌, ◌-◌, ◌*◌, ◌/◌, ◌%◌, ◌^◌, ◌≤◌, ◌<◌, ℤ, pos, negsuc, Str, true,
  [], ◌∷◌, ◌≡◌, refl, ap, sym, ◌∙◌, arith, ltb, length, if◌then◌else◌, Run, returns, ◌>>=◌,
  >>=-returns, returns-injective, Bool-cases, inl, inr,
}
use chainpoint_core.Abci.Block.{put_uvarint, app_hash_of, zigzag}

-- The reader of a varint: a byte below 128 ends it.
unfoldable get_uvarint : Str → ℕ
get_uvarint [] = 0
get_uvarint (b ∷ bs) = let rest = get_uvarint bs in if ltb b 128 then b else (b - 128) + 128 * rest

get_uvarint-last : (m y : ℕ) → ltb y 128 ≡ true → get_uvarint (pad (suc m) (y ∷ [])) ≡ y
unfolding get_uvarint pad
get_uvarint-last m y b = rw b refl

get_uvarint-more :
    (m y : ℕ) (rest : Str)
    → get_uvarint (pad m rest) ≡ y / 128
    → get_uvarint (pad (suc m) ((y % 128 + 128) ∷ rest)) ≡ y
unfolding get_uvarint pad
get_uvarint-more m y rest e = ground arith

-- The padding is read as the end of the varint.
get_uvarint-put_uvarint :
    (r n x : ℕ) {bs : Str} → r ≤ n → put_uvarint r x ≡ returns bs → get_uvarint (pad n bs) ≡ x
unfolding put_uvarint
get_uvarint-put_uvarint zero n x h e = cc
get_uvarint-put_uvarint (suc r) zero x h e = absurd (omega arith)
get_uvarint-put_uvarint (suc r) (suc n) x h e = elim (Bool-cases (ltb x 128)) [
  | inl b ↦
      ap (λ s. get_uvarint (pad (suc n) s)) (sym (returns-injective (rw (b, put_uvarint) at e)))
      ∙ get_uvarint-last n x b
  | inr b ↦
      let (rest, p, q) = >>=-returns (put_uvarint r (x / 128)) _ (rw (b, put_uvarint) at e) in
      ap (λ s. get_uvarint (pad (suc n) s)) (sym (returns-injective q))
      ∙ get_uvarint-more n x rest (get_uvarint-put_uvarint r n (x / 128) (omega arith) p)
]

-- Eight bytes hold every height below 2^55.
put_uvarint_fits : (r x : ℕ) → x < 128 ^ suc r → (bs : Str) × (put_uvarint (suc r) x ≡ returns bs)
unfolding put_uvarint
put_uvarint_fits zero x h = (x ∷ [], ground arith)
put_uvarint_fits (suc r) x h = elim (Bool-cases (ltb x 128)) [
  | inl b ↦ (x ∷ [], rw (b, put_uvarint) refl)
  | inr b ↦
      let (rest, p) = put_uvarint_fits r (x / 128) (ground arith) in
      ((x % 128 + 128) ∷ rest, rw (b, put_uvarint, p) refl)
]

zigzag-injective : (a b : ℤ) → zigzag a ≡ zigzag b → a ≡ b
zigzag-injective (pos m) (pos n) e = ap pos (omega arith)
zigzag-injective (pos m) (negsuc n) e = absurd (omega arith)
zigzag-injective (negsuc m) (pos n) e = absurd (omega arith)
zigzag-injective (negsuc m) (negsuc n) e = ap negsuc (omega arith)

app_hash_read :
    (height : ℤ) {bs : Str} → app_hash_of height ≡ returns bs → get_uvarint bs ≡ zigzag height
unfolding app_hash_of
app_hash_read height e =
    let (b, p, q) = >>=-returns (put_uvarint 8 (zigzag height)) _ e in
    ap get_uvarint (sym (returns-injective q))
    ∙ get_uvarint-put_uvarint 8 8 (zigzag height) (omega arith) p

-- Two heights with the same application hash are the same height.
pub app_hash_of-injective :
    (a b : ℤ) {bs : Str} → app_hash_of a ≡ returns bs → app_hash_of b ≡ returns bs → a ≡ b
app_hash_of-injective a b p q = zigzag-injective a b (sym (app_hash_read a p) ∙ app_hash_read b q)

-- For a height below 2^55 the hash is computed without a panic, it has 8 bytes, and no other height
-- has it.
pub app_hash_of_lem :
    (n : ℕ)
    → n < 2 ^ 55
    → (bs : Str) × (app_hash_of (pos n) ≡ returns bs)
      × (length bs ≡ 8)
      × ((h : ℤ) → app_hash_of h ≡ returns bs → h ≡ pos n)
unfolding app_hash_of
app_hash_of_lem n h =
    let (bs, p) = put_uvarint_fits 7 (n * 2) (omega arith) in
    let e = ap (λ (r : Run Str). r >>= λ s. returns (pad 8 s)) p in
    (pad 8 bs, e, length-pad 8 bs, λ k q. app_hash_of-injective k (pos n) q e)
