-- ===== src/Sorting/Canonical.antt =====
-- The sorted list of strings does not depend on the order of the input.
use mathlib.Core.List.{Perm, Permᴰ}
use mathlib.Core.Path.{ap₂}
use mathlib.Core.Logic.{∥∥₁_elim}
use chainpoint_core.Prelude.{Str, true, List, [], ◌∷◌, ◌≡◌, ◌⊎◌, inl, inr, refl, ◌∙◌, arith}
use chainpoint_core.Sorting.{str_leb, insert_sorted, sort, sort_strings}

str_leb_total : (a b : Str) → (str_leb a b ≡ true) ⊎ (str_leb b a ≡ true)
unfolding str_leb
str_leb_total [] b = inl refl
str_leb_total (x ∷ xs) [] = inr refl
str_leb_total (x ∷ xs) (y ∷ ys) = ground (arith, str_leb_total xs ys)

str_leb_antisymm : (a b : Str) → str_leb a b ≡ true → str_leb b a ≡ true → a ≡ b
unfolding str_leb
str_leb_antisymm [] [] h k = refl
str_leb_antisymm [] (y ∷ ys) h k = cc
str_leb_antisymm (x ∷ xs) [] h k = cc
str_leb_antisymm (x ∷ xs) (y ∷ ys) h k = ground (arith, str_leb_antisymm xs ys)

str_leb_trans : (a b c : Str) → str_leb a b ≡ true → str_leb b c ≡ true → str_leb a c ≡ true
unfolding str_leb
str_leb_trans [] b c h k = refl
str_leb_trans (x ∷ xs) [] c h k = cc
str_leb_trans (x ∷ xs) (y ∷ ys) [] h k = cc
str_leb_trans (x ∷ xs) (y ∷ ys) (z ∷ zs) h k = ground (arith, str_leb_trans xs ys zs)

-- Two insertions commute.
pub insert_sorted_comm :
    (a b : Str) (l : List Str)
    → insert_sorted str_leb a (insert_sorted str_leb b l)
      ≡ insert_sorted str_leb b (insert_sorted str_leb a l)
unfolding insert_sorted
insert_sorted_comm a b [] = ground (arith, str_leb_total a b, str_leb_antisymm a b)
insert_sorted_comm a b (x ∷ l) = ground (
  arith,
  insert_sorted_comm a b l,
  str_leb_total a b,
  str_leb_antisymm a b,
  str_leb_trans a b x,
  str_leb_trans b a x,
)

sort_of_permᴰ : {l m : List Str} → Permᴰ l m → sort str_leb l ≡ sort str_leb m
unfolding sort
sort_of_permᴰ Permᴰ.nil = refl
sort_of_permᴰ (Permᴰ.cons e p) = ap₂ (insert_sorted str_leb) e (sort_of_permᴰ p)
sort_of_permᴰ (Permᴰ.swap {a = a} {b = b} {l = l} e f) =
    insert_sorted_comm a b (sort str_leb l)
    ∙ ap₂ (λ x y. insert_sorted str_leb x (insert_sorted str_leb y (sort str_leb l))) f e
sort_of_permᴰ (Permᴰ.trans p q) = sort_of_permᴰ p ∙ sort_of_permᴰ q

Strs-set : IsSet (List Str)
Strs-set = hlevel

-- Two orders of the same strings sort to one list.
pub sort_strings_of_perm : {l m : List Str} → Perm l m → sort_strings l ≡ sort_strings m
unfolding sort_strings
sort_strings_of_perm {l} {m} p =
    ∥∥₁_elim p (Strs-set (sort str_leb l) (sort str_leb m)) sort_of_permᴰ
