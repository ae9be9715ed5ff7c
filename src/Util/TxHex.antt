-- ===== src/Util/TxHex.antt =====
-- util/util.go: ReverseTxHex, which turns a transaction's id around, byte by byte.
use chainpoint_core.Prelude.{
  ℕ, zero, suc, ◌/◌, ◌%◌, ◌<◌, leb, Str, Bool, true, false, not, ◌||◌, ◌&&◌, ◌==◌, List, [], ◌∷◌,
  ◌++◌, append_assoc, ◌≡◌, refl, ap, sym, ◌∙◌, arith, if◌then◌else◌,
}
use chainpoint_core.Strconv.Hex.{hex_digit, hex_encode, IsBytes}

-- The class \s, which no rune of more than one byte is in.
abbrev pub is_blank : ℕ → Bool
is_blank c = c == 32 || (c == 9 || (c == 10 || (c == 12 || c == 13)))

abbrev pub is_space : Str → Bool
is_space (c ∷ []) = is_blank c
is_space r = false

abbrev between : ℕ → ℕ → ℕ → Bool
between lo hi c = leb lo c && leb c hi

-- Whether the text begins with so many continuation bytes of UTF-8.
abbrev continues : ℕ → Str → Bool
continues zero s = true
continues (suc n) [] = false
continues (suc n) (b ∷ s) = between 128 191 b && continues n s

abbrev second : ℕ → ℕ → ℕ → Str → Bool
second lo hi n [] = false
second lo hi n (b ∷ s) = between lo hi b && continues n s

-- How many bytes belong to the rune that begins with the byte `c`; a byte that begins none is a rune
-- by itself.
unfoldable pub extra_bytes : ℕ → Str → ℕ
extra_bytes c s =
    if between 194 223 c
    then (if continues 1 s then 1 else 0)
    else if between 224 239 c
    then (if second (if c == 224 then 160 else 128) (if c == 237 then 159 else 191) 1 s
        then 2
        else 0)
    else if between 240 244 c
    then (if second (if c == 240 then 144 else 128) (if c == 244 then 143 else 191) 2 s
        then 3
        else 0)
    else 0

-- The bytes that the rune still has, and the runes after it.
unfoldable pub runes_from : ℕ → Str → Str × List Str
unfolding extra_bytes
runes_from n [] = ([], [])
runes_from zero (c ∷ s) = let (t, rs) = runes_from (extra_bytes c s) s in ([], (c ∷ t) ∷ rs)
runes_from (suc n) (c ∷ s) = let (t, rs) = runes_from n s in (c ∷ t, rs)

-- The runes of a text, each with its bytes.
abbrev runes : Str → List Str
runes s = (runes_from zero s).1

-- FindAllString of `(\S{2})`: the matches from the left, which do not overlap.
unfoldable pub pairs : List Str → List Str
pairs [] = []
pairs (a ∷ []) = []
pairs (a ∷ b ∷ rest) =
    let after = pairs rest in
    let next = pairs (b ∷ rest) in
    if not (is_space a) && not (is_space b) then (a ++ b) ∷ after else next

unfoldable pub reverse_any {ℓ} : {A : Type ℓ} → List A → List A
reverse_any [] = []
reverse_any (x ∷ xs) = reverse_any xs ++ x ∷ []

abbrev pub concat_all : List Str → Str
concat_all [] = []
concat_all (s ∷ ss) = s ++ concat_all ss

-- ReverseTxHex
unfoldable pub reverse_tx_hex : Str → Str
unfolding pairs reverse_any runes_from
reverse_tx_hex s = concat_all (reverse_any (pairs (runes s)))

concat_all-append : (a b : List Str) → concat_all (a ++ b) ≡ concat_all a ++ concat_all b
concat_all-append [] b = refl
concat_all-append (s ∷ a) b =
    ap (λ r. s ++ r) (concat_all-append a b) ∙ sym (append_assoc s (concat_all a) (concat_all b))

pub hex_encode-append : (a b : Str) → hex_encode (a ++ b) ≡ hex_encode a ++ hex_encode b
unfolding hex_encode
hex_encode-append [] b = refl
hex_encode-append (x ∷ a) b =
    ap (λ r. hex_digit (x / 16) ∷ hex_digit (x % 16) ∷ r) (hex_encode-append a b)

hex_digit-blank : (n : ℕ) → n < 16 → is_blank (hex_digit n) ≡ false
unfolding hex_digit
hex_digit-blank n h = ground arith

hex_digit-extra_bytes : (n : ℕ) (s : Str) → n < 16 → extra_bytes (hex_digit n) s ≡ 0
unfolding hex_digit extra_bytes
hex_digit-extra_bytes n s h = ground arith

runes_from-zero : (s : Str) → (runes_from zero s).0 ≡ []
unfolding runes_from
runes_from-zero [] = refl
runes_from-zero (c ∷ s) = refl

-- A byte that is a rune by itself.
runes_alone : (c : ℕ) (s : Str) → extra_bytes c s ≡ 0 → runes (c ∷ s) ≡ (c ∷ []) ∷ runes s
unfolding runes_from
runes_alone c s e =
    rw (runes_from, e) (ap (λ t. (c ∷ t) ∷ (runes_from zero s).1) (runes_from-zero s))

runes-digits :
    (a b : ℕ) (s : Str)
    → a < 16
    → b < 16
    → runes (hex_digit a ∷ hex_digit b ∷ s) ≡ (hex_digit a ∷ []) ∷ (hex_digit b ∷ []) ∷ runes s
runes-digits a b s p q =
    runes_alone (hex_digit a) (hex_digit b ∷ s) (hex_digit-extra_bytes a (hex_digit b ∷ s) p)
    ∙ ap (◌∷◌ (hex_digit a ∷ [])) (runes_alone (hex_digit b) s (hex_digit-extra_bytes b s q))

pub reverse_tx_hex-hex_encode :
    (v : Str) → IsBytes v → reverse_tx_hex (hex_encode v) ≡ hex_encode (reverse_any v)
unfolding reverse_tx_hex pairs hex_encode reverse_any
reverse_tx_hex-hex_encode [] h = refl
reverse_tx_hex-hex_encode (x ∷ v) (h, hs) =
    ap (λ r. concat_all (reverse_any (pairs r)))
      (runes-digits (x / 16) (x % 16) (hex_encode v) (omega arith) (omega arith))
    ∙ (rw (hex_digit-blank (x / 16) (omega arith), hex_digit-blank (x % 16) (omega arith))
        (concat_all-append (reverse_any (pairs (runes (hex_encode v))))
            ((hex_digit (x / 16) ∷ hex_digit (x % 16) ∷ []) ∷ [])
          ∙ ap (λ r. r ++ hex_digit (x / 16) ∷ hex_digit (x % 16) ∷ [])
              (reverse_tx_hex-hex_encode v hs)
          ∙ sym (hex_encode-append (reverse_any v) (x ∷ []))))

reverse_any-append {ℓ} :
    {A : Type ℓ} (a : List A) (x : A) → reverse_any (a ++ x ∷ []) ≡ x ∷ reverse_any a
unfolding reverse_any
reverse_any-append [] x = refl
reverse_any-append (y ∷ a) x = ap (λ r. r ++ y ∷ []) (reverse_any-append a x)

pub reverse_any_twice {ℓ} : {A : Type ℓ} (a : List A) → reverse_any (reverse_any a) ≡ a
unfolding reverse_any
reverse_any_twice [] = refl
reverse_any_twice (x ∷ a) = reverse_any-append (reverse_any a) x ∙ ap (◌∷◌ x) (reverse_any_twice a)

pub reverse_any-IsBytes : (v : Str) → IsBytes v → IsBytes (reverse_any v)
unfolding reverse_any
reverse_any-IsBytes [] h = tt
reverse_any-IsBytes (x ∷ v) (h, hs) = snoc-IsBytes (reverse_any v) x (reverse_any-IsBytes v hs) h
  where
    snoc-IsBytes : (v : Str) (x : ℕ) → IsBytes v → x < 256 → IsBytes (v ++ x ∷ [])
    snoc-IsBytes [] x h k = (k, tt)
    snoc-IsBytes (y ∷ v) x (h, hs) k = (h, snoc-IsBytes v x hs k)
