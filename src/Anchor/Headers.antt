-- ===== src/Anchor/Headers.antt =====
-- anchor/bitcoin/bitcoinanchor.go: the tree of a block, and the path of a transaction to its root.
pub mod Sound
use chainpoint_core.Prelude.{
  ℕ, ◌+◌, pos, Str, str, str_eq, contains, Bool, true, false, not, Option, none, some, List, [],
  ◌∷◌, if◌then◌else◌,
}
use chainpoint_core.Types.{TxId, BtcMonMsg, JsProof}
use chainpoint_core.Strconv.Hex.{hex_encode, hex_decode}
use chainpoint_core.Util.TxHex.{reverse_tx_hex}
use chainpoint_core.Merkle.{MerkleOps, ProofStep}
use chainpoint_core.Anchor.{BlockDetails, BlockAnswer, LightningClient, AnchorError}

-- The leaves of a block's tree: the ids turned around; what is no hexadecimal text is cut short.
unfoldable pub block_leaves : List Str → List Str
unfolding reverse_tx_hex
block_leaves [] = []
block_leaves (t ∷ ts) = (hex_decode (reverse_tx_hex t)).0 ∷ block_leaves ts

-- The last index of the id, from `i` on.
unfoldable pub last_index : Str → ℕ → List Str → Option ℕ
last_index txid i [] = none
last_index txid i (t ∷ ts) = elim (last_index txid (i + 1) ts) [
  | some j ↦ some j
  | none ↦ if str_eq t txid then some i else none
]

abbrev pub reversed_bytes : Str → Str
reversed_bytes bytes = (hex_decode (reverse_tx_hex (hex_encode bytes))).0

abbrev pub js_proof : ProofStep → JsProof
js_proof p =
    if p.left
    then record { left = hex_encode p.value; right = [] }
    else record { left = []; right = hex_encode p.value }

unfoldable pub js_proofs : List ProofStep → List JsProof
js_proofs [] = []
js_proofs (p ∷ ps) = js_proof p ∷ js_proofs ps

abbrev pub empty_btc_mon_msg : BtcMonMsg
empty_btc_mon_msg = record {
  btc_tx_id = [];
  btc_head_height = pos 0;
  btc_head_root = [];
  path = [];
}

-- What GetBlockTree returns: the block, the leaves of the tree and the index, or the error.
pub data BlockTree : Type 0 where
  tree : BlockDetails → List Str → ℕ → BlockTree
  no_tree : AnchorError → BlockTree

-- Whether the text of an error contains "not found in block". The mismatch of the roots is a text of
-- two hexadecimal strings, which do not.
abbrev pub says_not_found : AnchorError → Bool
says_not_found (AnchorError.client message) = contains message (str "not found in block")
says_not_found AnchorError.tx_not_found = true
says_not_found _ = false

module _ (mt : MerkleOps) (ln : LightningClient) where
  abbrev pub tree_at : BlockDetails → Option ℕ → BlockTree
  tree_at b none = no_tree AnchorError.tx_not_found
  tree_at b (some i) =
      let leaves = block_leaves b.transactions in
      if str_eq (reversed_bytes (mt.btc_root leaves)) (reversed_bytes b.merkle_root)
      then tree b leaves i
      else no_tree AnchorError.block_root_mismatch

  abbrev pub tree_in : Str → BlockAnswer → BlockTree
  tree_in txid (BlockAnswer.refused message) = no_tree (AnchorError.client message)
  tree_in txid (BlockAnswer.block b) = tree_at b (last_index txid 0 b.transactions)

  -- GetBlockTree
  unfoldable pub get_block_tree : TxId → BlockTree
  unfolding last_index block_leaves reverse_tx_hex
  get_block_tree btc_tx = tree_in btc_tx.tx_id (ln.get_block_by_height btc_tx.block_height)

  abbrev pub header_proof_of : TxId → BlockTree → BtcMonMsg × Option AnchorError
  header_proof_of tx (no_tree e) = (empty_btc_mon_msg, some e)
  header_proof_of tx (tree b leaves i) = (
    record {
      btc_tx_id = tx.tx_id;
      btc_head_height = tx.block_height;
      btc_head_root = reverse_tx_hex (hex_encode b.merkle_root);
      path = js_proofs (mt.get_btc_proof leaves i);
    },
    none,
  )

  -- GenerateBtcHeaderProof
  unfoldable pub generate_btc_header_proof : TxId → BtcMonMsg × Option AnchorError
  unfolding get_block_tree js_proofs
  generate_btc_header_proof tx = header_proof_of tx (get_block_tree tx)
