-- ===== src/Tests/Threads.antt =====
-- The aggregator's threads at work.
use chainpoint_core.Prelude.{Str, str, pad, length, length-pad, none, [], ◌∷◌, ◌≡◌, refl}
use chainpoint_core.Types.{HashItem}
use chainpoint_core.Aggregator.Threads.{Pool, consume, queued, Step, Reach}
use chainpoint_core.Aggregator.Threads.Conserved.{Conserved, Reach-Conserved}
use chainpoint_core.Tests.Trees.{toy_tree, toy_tree_rooted, toy_ops}

-- A hash function of 32 bytes.
abbrev wide_sha : Str → Str
wide_sha s = pad 32 s

wide : (s : Str) → length (wide_sha s) ≡ 32
wide s = length-pad 32 s

abbrev a_hash : HashItem
a_hash = record { proof_id = str "p"; hash = str "0a" }

abbrev start : Pool
start = record { hashes = []; slices = [] ∷ []; aggregations = []; collected = []; accepted = [] }

abbrev with_hash : Pool
with_hash = record start { hashes = a_hash ∷ []; accepted = a_hash ∷ [] }

-- The thread has taken the hash, with room for more in its batch.
abbrev taken : Pool
taken = record with_hash {
  hashes = [];
  slices = (consume toy_tree toy_ops wide_sha 5 [] none a_hash []).0 ∷ [];
  aggregations = queued (consume toy_tree toy_ops wide_sha 5 [] none a_hash []).1;
}

to_taken : Reach toy_tree toy_ops wide_sha 5 start taken
to_taken =
    Reach.then_step start with_hash taken
      (Reach.then_step start start with_hash (Reach.here start) (Step.added start a_hash))
      (Step.taken [] none a_hash [] [] [] [] [] [] (a_hash ∷ []))

Reach-Conserved_example : Conserved taken
Reach-Conserved_example =
    Reach-Conserved toy_tree toy_ops wide_sha 5 (λ ops. (_, refl)) wide
      (λ l ls h. toy_tree_rooted l ls) start taken to_taken (λ id. refl)
