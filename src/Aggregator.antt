-- ===== src/Aggregator.antt =====
-- aggregator/aggregator.go: the batches of hashes that come in, their trees, and the queue of trees.
pub mod Sound
pub mod Proofs
pub mod Queue
pub mod Threads
use chainpoint_core.Prelude.{
  ℕ, ◌+◌, Str, str, str_eq, pad, contains, true, not, Option, none, some, List, [], ◌∷◌, ◌++◌,
  if◌then◌else◌,
}
use chainpoint_core.Types.{HashItem, AggState, Aggregation, OpsState, ProofLineItem}
use chainpoint_core.Strconv.Hex.{hex_encode, hex_decode}
use chainpoint_core.Merkle.{MerkleOps, ProofStep}
use chainpoint_core.Merkle.Eval.{left_item, right_item, op_item}
use chainpoint_core.Calendar.{OpsJson}

abbrev pub drand_text : Str → Str
drand_text drand = str "drand:" ++ drand

abbrev pub empty_aggregation : Aggregation
empty_aggregation = record { agg_id = []; agg_root = []; agg_states = [] }

module _ (sha : Str → Str) where
  -- The leaf of a hash: with the beacon's time, or else the first 32 bytes. The error of the
  -- hexadecimal text is not looked at, so the bytes before it count.
  unfoldable pub leaf_of : Str → Str → Str
  leaf_of drand hash =
      let hash_bytes = (hex_decode hash).0 in
      if not (str_eq drand []) then sha (drand_text drand ++ hash_bytes) else pad 32 hash_bytes

  unfoldable pub leaves_of : Str → List HashItem → List Str
  unfolding leaf_of
  leaves_of drand [] = []
  leaves_of drand (h ∷ hs) = leaf_of drand h.hash ∷ leaves_of drand hs

-- A node on the left whose bytes contain the word is not written in hexadecimal.
abbrev pub agg_item : ProofStep → ProofLineItem
agg_item p =
    if p.left
    then (if contains p.value (str "drand")
        then left_item p.value
        else left_item (hex_encode p.value))
    else right_item (hex_encode p.value)

unfoldable pub agg_lines : List ProofStep → List ProofLineItem
agg_lines [] = []
agg_lines (p ∷ ps) = agg_item p ∷ op_item (str "sha-256") ∷ agg_lines ps

-- With the beacon's time, a step for it stands in front.
abbrev pub with_drand : Str → List ProofStep → List ProofStep
with_drand drand steps =
    if not (str_eq drand [])
    then record { left = true; value = drand_text drand } ∷ steps
    else steps

module _ (mt : MerkleOps) (js : OpsJson) where
  abbrev pub ops_of : Str → List Str → ℕ → OpsState
  ops_of drand leaves i = record { ops = agg_lines (with_drand drand (mt.get_proof leaves i)) }

  -- The loop over the hashes, from the index `i` on. JSON that fails skips the hash.
  unfoldable pub agg_states_from : Str → Str → Str → List Str → ℕ → List HashItem → List AggState
  unfolding agg_lines
  agg_states_from drand agg_id agg_root leaves i [] = []
  agg_states_from drand agg_id agg_root leaves i (h ∷ hs) =
      let more = agg_states_from drand agg_id agg_root leaves (i + 1) hs in
      elim (js.encode (ops_of drand leaves i)) [
        | none ↦ more
        | some text ↦
            record {
              proof_id = h.proof_id;
              hash = h.hash;
              agg_id = agg_id;
              agg_state = text;
              agg_root = agg_root;
            }
            ∷ more
      ]

  -- The part of ProcessAggregation after the id is there.
  unfoldable pub aggregation_of : (Str → Str) → Str → Str → List HashItem → Aggregation
  unfolding agg_states_from leaves_of
  aggregation_of sha drand agg_id hashes =
      let leaves = leaves_of sha drand hashes in
      let agg_root = hex_encode (mt.root leaves) in
      record {
        agg_id = agg_id;
        agg_root = agg_root;
        agg_states = agg_states_from drand agg_id agg_root leaves 0 hashes;
      }

  -- ProcessAggregation; `ulid` is the new id, if the generator has one
  unfoldable pub process_aggregation : (Str → Str) → Str → Option Str → List HashItem → Aggregation
  unfolding aggregation_of
  process_aggregation sha drand ulid [] = empty_aggregation
  process_aggregation sha drand none (h ∷ hs) = empty_aggregation
  process_aggregation sha drand (some agg_id) (h ∷ hs) = aggregation_of sha drand agg_id (h ∷ hs)
