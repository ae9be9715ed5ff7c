-- ===== src/Prelude/Maps.antt =====
-- Go's maps with string keys: an association list in the order of insertion.
use mathlib.Core.Path.{◌≡◌, refl}
use mathlib.Core.Bool.{Bool, true, false}
use mathlib.Core.Option.{Option, none, some}
use mathlib.Core.List.{List, [], ◌∷◌, map}
use native.Mathlib.Omega.{arith}
use chainpoint_core.Prelude.Tests.{if◌then◌else◌}
use chainpoint_core.Prelude.Strings.{Str, str_eq, str_eq_iff, str_eq_refl}

abbrev pub Dict {ℓ} : Type ℓ → Type ℓ
Dict V = List (Str × V)

module _ {ℓ} {V : Type ℓ} where
  -- `v, exists := m[k]`
  unfoldable pub lookup : Str → Dict V → Option V
  lookup k [] = none
  lookup k ((j, v) ∷ m) = if str_eq j k then some v else lookup k m

  -- `m[k] = v`
  unfoldable pub insert : Str → V → Dict V → Dict V
  insert k v [] = (k, v) ∷ []
  insert k v ((j, w) ∷ m) =
      let rest = insert k v m in if str_eq j k then (k, v) ∷ m else (j, w) ∷ rest

  -- `delete(m, k)`
  unfoldable pub delete : Str → Dict V → Dict V
  delete k [] = []
  delete k ((j, w) ∷ m) = let rest = delete k m in if str_eq j k then rest else (j, w) ∷ rest

  -- `m[k]`, with the zero value of the type on a missing key
  unfoldable pub lookup_or : V → Str → Dict V → V
  lookup_or zero_value k m = elim (lookup k m) [ none ↦ zero_value | some v ↦ v ]

  unfoldable pub has_key : Str → Dict V → Bool
  has_key k m = elim (lookup k m) [ none ↦ false | some _ ↦ true ]

  pub lookup-insert :
      (k j : Str) (v : V) (m : Dict V)
      → lookup j (insert k v m) ≡ (if str_eq k j then some v else lookup j m)
  unfolding lookup insert
  lookup-insert k j v [] = refl
  lookup-insert k j v ((i, w) ∷ m) =
      ground (arith, str_eq_iff k j, str_eq_iff i k, str_eq_iff i j, lookup-insert k j v m)

  pub lookup-delete :
      (k j : Str) (m : Dict V) → lookup j (delete k m) ≡ (if str_eq k j then none else lookup j m)
  unfolding lookup delete
  lookup-delete k j [] = ground arith
  lookup-delete k j ((i, w) ∷ m) =
      ground (arith, str_eq_iff k j, str_eq_iff i k, str_eq_iff i j, lookup-delete k j m)

  pub has_key_found : (k : Str) (m : Dict V) (v : V) → lookup k m ≡ some v → has_key k m ≡ true
  unfolding has_key
  has_key_found k m v e = rw (e, has_key)

  pub has_key_missing : (k : Str) (m : Dict V) → lookup k m ≡ none → has_key k m ≡ false
  unfolding has_key
  has_key_missing k m e = rw (e, has_key)

  pub lookup_or_found :
      (d : V) (k : Str) (m : Dict V) (v : V) → lookup k m ≡ some v → lookup_or d k m ≡ v
  unfolding lookup_or
  lookup_or_found d k m v e = rw (e, lookup_or)

  pub lookup_or_missing : (d : V) (k : Str) (m : Dict V) → lookup k m ≡ none → lookup_or d k m ≡ d
  unfolding lookup_or
  lookup_or_missing d k m e = rw (e, lookup_or)

  pub lookup-insert_self : (k : Str) (v : V) (m : Dict V) → lookup k (insert k v m) ≡ some v
  lookup-insert_self k v m = rw lookup-insert (rw str_eq_refl)

  pub lookup_or-insert_self :
      (d : V) (k : Str) (v : V) (m : Dict V) → lookup_or d k (insert k v m) ≡ v
  lookup_or-insert_self d k v m = lookup_or_found d k (insert k v m) v (lookup-insert_self k v m)

unfoldable pub keys {ℓ} : {V : Type ℓ} → Dict V → List Str
keys m = map (λ e. e.0) m
