-- ===== src/Sorting.antt =====
-- sort.Strings and sort.Slice: insertion into a sorted list. Go compares strings byte by byte.
pub mod Canonical
use chainpoint_core.Prelude.{
  Str, Bool, true, false, ◌&&◌, ◌||◌, List, [], ◌∷◌, ltb, ◌==◌, if◌then◌else◌,
}

-- `a <= b` on strings
unfoldable pub str_leb : Str → Str → Bool
str_leb [] ys = true
str_leb (x ∷ xs) [] = false
str_leb (x ∷ xs) (y ∷ ys) = ltb x y || (x == y && str_leb xs ys)

module _ {ℓ} {A : Type ℓ} (le : A → A → Bool) where
  unfoldable pub insert_sorted : A → List A → List A
  insert_sorted a [] = a ∷ []
  insert_sorted a (x ∷ xs) =
      let rest = insert_sorted a xs in if le a x then a ∷ x ∷ xs else x ∷ rest

  unfoldable pub sort : List A → List A
  unfolding insert_sorted
  sort [] = []
  sort (x ∷ xs) = insert_sorted x (sort xs)

-- sort.Strings
unfoldable pub sort_strings : List Str → List Str
unfolding sort str_leb
sort_strings = sort str_leb
