-- ===== src/Tests/Bitcoin.antt =====
-- A CAL on its way into a block of Bitcoin.
use chainpoint_core.Prelude.{
  pos, Str, str, str_eq, pad, none, some, List, [], ◌∷◌, ◌++◌, length, ◌≡◌, refl, arith, returns,
}
use chainpoint_core.Types.{BtcTxMsg, BtcAgg, TxId, AnchorBtcTxState}
use chainpoint_core.Strconv.Hex.{hex_encode, hex_decode, IsBytes}
use chainpoint_core.Util.Tx.{decode_tx}
use chainpoint_core.Util.TxHex.{reverse_tx_hex, reverse_any, pairs, runes_from, extra_bytes}
use chainpoint_core.Calendar.{
  ResultTx, firsts, kept_leaves, text_index, aggregate_anchor_tx, generate_anchor_btc_tx_state,
  generate_head_state_object, prepare_btca_state_data,
}
use chainpoint_core.Anchor.{LightningClient, BlockAnswer, BlockDetails}
use chainpoint_core.Anchor.Headers.{
  generate_btc_header_proof, get_block_tree, last_index, block_leaves,
}
use chainpoint_core.Pipeline.Bitcoin.{AllLink, aggregate_anchor_tx-AllLink}
use chainpoint_core.Tests.Trees.{
  toy_sha, toy_sha-IsBytes, toy_tree, toy_tree-MerkleLaws, toy_ops, toy_ops-OpsJsonLaws,
}
use chainpoint_core.Tests.Proofs.{cal_externals, a_cal, no_cal, root_is_long, seven-IsAscii}

-- The root of the CAL's tree, and the transaction around it.
abbrev anchored : List (Str × ResultTx)
anchored = kept_leaves cal_externals (no_cal ∷ a_cal ∷ [])

abbrev anchor_root : Str
anchor_root = toy_tree.root (firsts anchored)

abbrev body : Str
body = (1 ∷ 2 ∷ []) ++ (anchor_root ++ 3 ∷ [])

abbrev spend : BtcTxMsg
spend = record {
  anchor_btc_agg_id = str "a";
  anchor_btc_agg_root = hex_encode anchor_root;
  btc_tx_id = str "t";
  btc_tx_body = hex_encode body;
  btc_tx_height = pos 0;
  cal_block_height = pos 0;
  begin_cal_tx_int = pos 0;
  end_cal_tx_int = pos 2;
}

abbrev txid : Str
txid = toy_sha (toy_sha body)

abbrev spend_id : TxId
spend_id = record {
  tx_id = hex_encode (reverse_any txid);
  block_height = pos 9;
  anchor_btc_agg_root = [];
}

abbrev the_block : BlockDetails
the_block = record {
  transactions = str "0102" ∷ spend_id.tx_id ∷ [];
  merkle_root = toy_tree.btc_root ((2 ∷ 1 ∷ []) ∷ txid ∷ []);
}

abbrev the_lnd : LightningClient
the_lnd = record {
  get_info = some 9;
  get_block_by_height = λ h. BlockAnswer.block the_block;
  send_op_return = λ root. some (str "t", hex_encode root);
  get_transaction = λ id. some [];
  send_coins = λ address amount. some (str "t");
}

found_first :
    text_index spend.btc_tx_body spend.anchor_btc_agg_root ≡ some (length (hex_encode (1 ∷ 2 ∷ [])))
unfolding text_index hex_encode kept_leaves decode_tx hex_decode str_eq pad
found_first = refl

same_id : (hex_decode (reverse_tx_hex spend_id.tx_id)).0 ≡ toy_sha (toy_sha body)
unfolding hex_encode kept_leaves decode_tx hex_decode str_eq pad reverse_tx_hex reverse_any pairs
    runes_from extra_bytes
same_id = refl

header_fine : (generate_btc_header_proof toy_tree the_lnd spend_id).1 ≡ none
unfolding generate_btc_header_proof get_block_tree last_index block_leaves str_eq pad reverse_tx_hex
    reverse_any pairs runes_from extra_bytes hex_decode hex_encode kept_leaves decode_tx
header_fine = refl

root-IsBytes : IsBytes the_block.merkle_root
root-IsBytes =
    toy_tree-MerkleLaws.btc_root_bytes ((2 ∷ 1 ∷ []) ∷ txid ∷ [])
      ((omega arith, (omega arith, tt)), (toy_sha-IsBytes (toy_sha body), tt))

aggregate_anchor_tx-AllLink_example :
    (agg : BtcAgg) × (tx_state : AnchorBtcTxState) × (aggregate_anchor_tx toy_tree cal_externals
        (λ s. s)
        (no_cal ∷ a_cal ∷ [])
      ≡ returns agg)
    × (generate_anchor_btc_tx_state toy_ops spend ≡ returns tx_state)
    × AllLink toy_sha toy_tree toy_tree-MerkleLaws toy_ops toy_ops-OpsJsonLaws the_block.merkle_root
        tx_state
        (generate_head_state_object toy_ops
          (λ s. s)
          (str "7")
          (5 ∷ [])
          (generate_btc_header_proof toy_tree the_lnd spend_id).0)
        anchored
        (prepare_btca_state_data toy_ops agg)
aggregate_anchor_tx-AllLink_example =
    aggregate_anchor_tx-AllLink toy_sha toy_tree toy_tree-MerkleLaws toy_ops toy_ops-OpsJsonLaws
      cal_externals (λ s. s) (λ s. s) the_lnd no_cal (a_cal ∷ []) spend (1 ∷ 2 ∷ []) (3 ∷ [])
      (str "7") (5 ∷ []) spend_id the_block root_is_long (omega arith, (omega arith, tt))
      (omega arith, tt) refl refl found_first same_id refl root-IsBytes header_fine (λ s a. a)
      seven-IsAscii (omega arith, tt)
