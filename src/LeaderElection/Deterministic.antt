-- ===== src/LeaderElection/Deterministic.antt =====
-- The election gives every node the same leaders, whatever the order in which a map is visited.
use mathlib.Core.List.{Perm, Permᴰ}
use mathlib.Core.Path.{ap₂}
use mathlib.Core.Logic.{∥∥₁_elim}
use chainpoint_core.Prelude.{
  ℤ, Str, keys, Bool, false, Option, none, some, List, [], ◌∷◌, str_eq, ◌≡◌, refl, sym, ap, ◌∙◌,
  arith, if◌then◌else◌,
}
use chainpoint_core.Types.{AnchorState}
use chainpoint_core.Sorting.{str_leb, insert_sorted, sort, sort_strings}
use chainpoint_core.Sorting.Canonical.{insert_sorted_comm}
use chainpoint_core.LeaderElection.{
  Election, is_listed, allowed_keys, announce, elect_sorted, elect_among,
  elect_chain_contributor_as_leader_naive,
}

abbrev ranked : List Str → List Str → List Str
ranked blacklist l = sort str_leb (allowed_keys blacklist l)

-- What one more key does to the sorted list of candidates.
abbrev rank : List Str → Str → List Str → List Str
rank blacklist k l = if is_listed blacklist k then l else insert_sorted str_leb k l

ranked-cons : (b : List Str) (k : Str) (l : List Str) → ranked b (k ∷ l) ≡ rank b k (ranked b l)
unfolding allowed_keys sort
ranked-cons b k l = ground arith

rank_comm :
    (b : List Str) (j k : Str) (l : List Str) → rank b j (rank b k l) ≡ rank b k (rank b j l)
rank_comm b j k l = ground (arith, insert_sorted_comm j k l)

ranked_of_permᴰ : (b : List Str) {l m : List Str} → Permᴰ l m → ranked b l ≡ ranked b m
ranked_of_permᴰ b Permᴰ.nil = refl
ranked_of_permᴰ b (Permᴰ.cons {a = x} {b = y} {l₁ = l} {l₂ = m} e p) =
    ranked-cons b x l ∙ ap₂ (rank b) e (ranked_of_permᴰ b p) ∙ sym (ranked-cons b y m)
ranked_of_permᴰ b (Permᴰ.swap {a = x} {b = y} {a' = x'} {b' = y'} {l = l} e f) =
    two x y
    ∙ rank_comm b x y (ranked b l)
    ∙ ap₂ (λ u v. rank b u (rank b v (ranked b l))) f e
    ∙ sym (two x' y')
  where
    two : (j k : Str) → ranked b (j ∷ k ∷ l) ≡ rank b j (rank b k (ranked b l))
    two j k = ranked-cons b j (k ∷ l) ∙ ap (rank b j) (ranked-cons b k l)
ranked_of_permᴰ b (Permᴰ.trans p q) = ranked_of_permᴰ b p ∙ ranked_of_permᴰ b q

Strs-set : IsSet (List Str)
Strs-set = hlevel

ranked_of_perm : (b : List Str) {l m : List Str} → Perm l m → ranked b l ≡ ranked b m
ranked_of_perm b {l} {m} p = ∥∥₁_elim p (Strs-set (ranked b l) (ranked b m)) (ranked_of_permᴰ b)

module _ (el : Election) where
  -- The election among contributors does not depend on the order in which they are visited.
  pub elect_among_of_perm :
      (n : ℤ) (blacklist : List Str) (state : AnchorState) (l m : List Str)
      → Perm l m
      → elect_among el n blacklist state l ≡ elect_among el n blacklist state m
  unfolding elect_among sort_strings
  elect_among_of_perm n blacklist state l m p =
      ap (elect_sorted el n state) (ranked_of_perm blacklist p)

  leaders_sorted :
      (n : ℤ) (s t : AnchorState) (l : List Str)
      → s.tm_state.latest_block_hash ≡ t.tm_state.latest_block_hash
      → (elect_sorted el n s l).1 ≡ (elect_sorted el n t l).1
  leaders_sorted n s t [] h = refl
  leaders_sorted n s t (k ∷ ks) h =
      leaders_announced s.id t.id s.tm_state.catching_up t.tm_state.catching_up
        (el.elect_strings (k ∷ ks) n s.tm_state.latest_block_hash)
      ∙ ap (λ x. (announce t.id t.tm_state.catching_up (el.elect_strings (k ∷ ks) n x)).1) h
    where
      leaders_announced :
          (a b : Str) (c d : Bool) (r : Option (List Str)) → (announce a c r).1 ≡ (announce b d r).1
      leaders_announced a b c d none = refl
      leaders_announced a b c d (some leaders) = refl

  -- Two nodes that know the same cores, in whatever order their maps are visited, and the same latest
  -- block hash, and that both have an id, elect the same leaders, whoever and however synced they are.
  pub leaders_agree :
      (n : ℤ) (blacklist : List Str) (s t : AnchorState)
      → str_eq s.id [] ≡ false
      → str_eq t.id [] ≡ false
      → Perm (keys s.core_keys) (keys t.core_keys)
      → s.tm_state.latest_block_hash ≡ t.tm_state.latest_block_hash
      → (elect_chain_contributor_as_leader_naive el n blacklist s).1
        ≡ (elect_chain_contributor_as_leader_naive el n blacklist t).1
  unfolding elect_chain_contributor_as_leader_naive
  leaders_agree n blacklist s t i j p h =
      rw (i, j)
        (ap (λ r. r.1) (elect_among_of_perm n blacklist s (keys s.core_keys) (keys t.core_keys) p)
          ∙ unfold elect_among in
            leaders_sorted n s t (sort_strings (allowed_keys blacklist (keys t.core_keys))) h)
