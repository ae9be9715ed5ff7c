-- ===== src/Util/Arrays.antt =====
-- util/util.go: searches in arrays of strings, UniquifyStrings, and MaxInt64.
use chainpoint_core.Prelude.{
  ℕ, ◌+◌, ℤ, ltb_ℤ, Str, str_eq, str_eq_iff, str_eq_refl, Bool, true, false, Bool-cases, inl, inr,
  List, [], ◌∷◌, ◌≡◌, refl, ap, ◌∙◌, arith, Option, none, some, if◌then◌else◌,
}

-- ArrayContains
unfoldable pub array_contains : List Str → Str → Bool
array_contains [] item = false
array_contains (v ∷ arr) item =
    let rest = array_contains arr item in if str_eq v item then true else rest

-- ArrayContainsIndex; the index -1 of a missing item is `none`
unfoldable pub index_from : ℕ → List Str → Str → Option ℕ
index_from i [] item = none
index_from i (v ∷ arr) item =
    let rest = index_from (i + 1) arr item in if str_eq v item then some i else rest

unfoldable pub array_contains_index : List Str → Str → Option ℕ
unfolding index_from
array_contains_index arr item = index_from 0 arr item

-- MaxInt64
unfoldable pub max_int64 : ℤ → ℤ → ℤ
max_int64 x y = if ltb_ℤ x y then y else x

-- The loop of UniquifyStrings; the code writes the result over the front of the array.
unfoldable pub uniquify_from : List Str → List Str → List Str
unfolding array_contains
uniquify_from seen [] = []
uniquify_from seen (v ∷ s) =
    let skipped = uniquify_from seen s in
    let rest = uniquify_from (v ∷ seen) s in if array_contains seen v then skipped else v ∷ rest

-- UniquifyStrings
unfoldable pub uniquify_strings : List Str → List Str
unfolding uniquify_from
uniquify_strings s = uniquify_from [] s

-- No string occurs twice.
abbrev pub AllDifferent : List Str → Type 0
AllDifferent [] = Unit {0}
AllDifferent (v ∷ s) = (array_contains s v ≡ false) × AllDifferent s

contains-cons :
    (v item : Str) (s : List Str)
    → array_contains (v ∷ s) item ≡ (if str_eq v item then true else array_contains s item)
unfolding array_contains
contains-cons v item s = refl

contains_self : (v : Str) (s : List Str) → array_contains (v ∷ s) v ≡ true
unfolding array_contains
contains_self v s = rw (str_eq_refl v) refl

-- A string of the result was not seen before, and was in the array.
uniquify_from_lem :
    (seen s : List Str) (item : Str)
    → array_contains (uniquify_from seen s) item
      ≡ (if array_contains seen item then false else array_contains s item)
unfolding uniquify_from array_contains
uniquify_from_lem seen [] item = ground arith
uniquify_from_lem seen (v ∷ s) item = ground (
  arith,
  str_eq_iff v item,
  uniquify_from_lem seen s item,
  uniquify_from_lem (v ∷ seen) s item,
  contains-cons v item seen,
)

uniquify_from-AllDifferent : (seen s : List Str) → AllDifferent (uniquify_from seen s)
unfolding uniquify_from
uniquify_from-AllDifferent seen [] = tt
uniquify_from-AllDifferent seen (v ∷ s) = elim (Bool-cases (array_contains seen v)) [
  | inl e ↦ rw e (uniquify_from-AllDifferent seen s)
  | inr e ↦ rw e (
    uniquify_from_lem (v ∷ seen) s v
        ∙ ap (λ b. if b then false else array_contains s v) (contains_self v seen),
    uniquify_from-AllDifferent (v ∷ seen) s,
  )
]

-- UniquifyStrings returns every string of the array exactly once.
pub uniquify_strings-AllDifferent :
    (s : List Str)
    → AllDifferent (uniquify_strings s)
      × ((item : Str) → array_contains (uniquify_strings s) item ≡ array_contains s item)
unfolding uniquify_strings array_contains
uniquify_strings-AllDifferent s =
    (uniquify_from-AllDifferent [] s, λ item. uniquify_from_lem [] s item)
