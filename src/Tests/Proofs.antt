-- ===== src/Tests/Proofs.antt =====
-- The proofs of two hashes at work.
use chainpoint_core.Prelude.{
  contains, pad, ℕ, zero, suc, pos, Str, str, str_eq, true, false, some, List, [], ◌∷◌, length,
  get_elem?, leb, ◌≡◌, refl, inl, arith, returns,
}
use chainpoint_core.LevelDb.{IsAscii, is_ascii, is_ascii-IsAscii}
use chainpoint_core.Types.{
  HashItem, AggState, Aggregation, CalStateObject, ProofLineItem, BtcAgg, BtcTxMsg,
  AnchorBtcTxState, AnchorBtcAggState, AnchorBtcHeadState,
}
use chainpoint_core.Externals.{Externals}
use chainpoint_core.Strconv.Hex.{hex_encode, hex_decode}
use chainpoint_core.Merkle.{Each}
use chainpoint_core.Merkle.Eval.{eval, text_bytes, op_item, left_item}
use chainpoint_core.Util.Tx.{decode_tx}
use chainpoint_core.Calendar.{
  ResultTx, generate_calendar_tree, create_cal_state_message, kept_leaves, firsts,
  aggregate_anchor_tx, generate_anchor_btc_tx_state, text_index,
}
use chainpoint_core.Calendar.Sound.{
  HasRoot, AllProved, AllAnchored, generate_calendar_tree-AllProved,
  aggregate_anchor_tx-AllAnchored,
}
use chainpoint_core.Calendar.Spends.{generate_anchor_btc_tx_state-computes}
use chainpoint_core.Aggregator.{leaf_of, leaves_of, process_aggregation}
use chainpoint_core.Aggregator.Sound.{IsPlain, Fits, AllProve}
use chainpoint_core.Aggregator.Proofs.{process_aggregation-AllProve}
use chainpoint_core.Proof.{
  P, empty, field, text, objects, cons, nil, single, get_field, convert_go_ops_to_json_map,
  add_calendar_branch, add_chain_branch,
}
use chainpoint_core.Proof.Sound.{
  eval_branch, eval_objects, eval_objects-convert, add_calendar_branch-computes,
  add_chain_branch-computes,
}
use chainpoint_core.Pipeline.{
  AllStored, AllComplete, create_cal_state_message-AllStored, process_aggregation-AllComplete,
}
use chainpoint_core.Tests.Fixtures.{toy_externals, toy_tx}
use chainpoint_core.Tests.Trees.{
  toy_sha, toy_sha-IsBytes, toy_tree, toy_tree-MerkleLaws, toy_ops, toy_ops-OpsJsonLaws,
}

abbrev first_hash : HashItem
first_hash = record { proof_id = str "p"; hash = str "00ff" }

abbrev second_hash : HashItem
second_hash = record { proof_id = str "q"; hash = str "0a" }

abbrev two_hashes : List HashItem
two_hashes = first_hash ∷ second_hash ∷ []

-- A root that another batch has.
abbrev other_root : Aggregation
other_root = record { agg_id = str "o"; agg_root = str "0b0c"; agg_states = [] }

two_Fit : Each (λ h. Fits (str "7") h.hash) two_hashes
unfolding str_eq
two_Fit = (inl refl, (inl refl, tt))

pub seven-IsAscii : IsAscii (str "7")
unfolding is_ascii
seven-IsAscii = is_ascii-IsAscii (str "7") refl

two_Plain : (j : ℕ) → Each IsPlain (toy_tree.get_proof (leaves_of toy_sha (str "7") two_hashes) j)
unfolding leaves_of leaf_of contains hex_decode str_eq pad
two_Plain zero = (refl, (refl, tt))
two_Plain (suc zero) = (refl, tt)
two_Plain (suc (suc j)) = tt

other-HasRoot : Each HasRoot (other_root ∷ [])
unfolding hex_decode
other-HasRoot = (refl, tt)

process_aggregation-AllProve_example :
    let agg = process_aggregation toy_tree toy_ops toy_sha (str "7") (some (str "g")) two_hashes in
    (text_bytes agg.agg_root ≡ toy_tree.root (leaves_of toy_sha (str "7") two_hashes))
    × AllProve toy_sha toy_ops (text_bytes agg.agg_root) two_hashes agg.agg_states
process_aggregation-AllProve_example =
    process_aggregation-AllProve toy_sha toy_sha-IsBytes toy_tree toy_tree-MerkleLaws toy_ops
      toy_ops-OpsJsonLaws (str "7") (str "g") first_hash (second_hash ∷ []) seven-IsAscii two_Fit
      two_Plain

process_aggregation-AllComplete_example :
    let agg = process_aggregation toy_tree toy_ops toy_sha (str "7") (some (str "g")) two_hashes in
    let tree = generate_calendar_tree toy_tree (other_root ∷ agg ∷ []) in
    (cal : CalStateObject) × (get_elem? (create_cal_state_message toy_ops (str "7") (5 ∷ []) tree) 1
      ≡ some cal)
    × (cal.agg_id ≡ agg.agg_id)
    × AllComplete toy_sha toy_tree toy_tree-MerkleLaws toy_ops toy_ops-OpsJsonLaws
        (text_bytes tree.cal_root)
        cal
        two_hashes
        agg.agg_states
process_aggregation-AllComplete_example =
    process_aggregation-AllComplete toy_sha toy_tree toy_tree-MerkleLaws toy_ops toy_ops-OpsJsonLaws
      toy_sha-IsBytes (str "7") (str "g") (str "7") (5 ∷ []) first_hash (second_hash ∷ [])
      (other_root ∷ []) [] seven-IsAscii seven-IsAscii (omega arith, tt) two_Fit two_Plain
      other-HasRoot tt

generate_calendar_tree-AllProved_example :
    let tree = generate_calendar_tree toy_tree (other_root ∷ []) in
    AllProved toy_sha (text_bytes tree.cal_root) (other_root ∷ []) tree.proof_data
generate_calendar_tree-AllProved_example =
    generate_calendar_tree-AllProved toy_sha toy_tree toy_tree-MerkleLaws (other_root ∷ [])
      other-HasRoot

create_cal_state_message-AllStored_example :
    let tree = generate_calendar_tree toy_tree (other_root ∷ []) in
    AllStored toy_sha toy_ops
      (text_bytes tree.cal_root)
      (other_root ∷ [])
      (create_cal_state_message toy_ops (str "7") (5 ∷ []) tree)
create_cal_state_message-AllStored_example =
    create_cal_state_message-AllStored toy_sha toy_tree toy_tree-MerkleLaws toy_ops
      toy_ops-OpsJsonLaws (str "7") (5 ∷ []) (other_root ∷ []) seven-IsAscii (omega arith, tt)
      other-HasRoot

abbrev two_items : List ProofLineItem
two_items = left_item (str "0b") ∷ op_item (str "sha-256") ∷ []

eval_objects-convert_example :
    eval_objects toy_sha (9 ∷ []) (convert_go_ops_to_json_map two_items)
    ≡ eval toy_sha (9 ∷ []) two_items
eval_objects-convert_example = eval_objects-convert toy_sha (9 ∷ []) two_items

-- A node whose transactions are CALs of the text that arrives.
abbrev pub cal_externals : Externals
cal_externals = record toy_externals {
  tx_of_json = λ s. (record (toy_tx (str "CAL")) { tx_data = s }, false);
}

abbrev pub a_cal : ResultTx
a_cal = record { hash = 7 ∷ []; tx = str "0a0b"; events = [] }

abbrev pub no_cal : ResultTx
no_cal = record { hash = 8 ∷ []; tx = str "xy"; events = [] }

pub root_is_long :
    leb 16 (length (toy_tree.root (firsts (kept_leaves cal_externals (no_cal ∷ a_cal ∷ [])))))
    ≡ true
unfolding kept_leaves decode_tx hex_decode str_eq pad
root_is_long = refl

aggregate_anchor_tx-AllAnchored_example :
    let kept = kept_leaves cal_externals (no_cal ∷ a_cal ∷ []) in
    (agg : BtcAgg) × (aggregate_anchor_tx toy_tree cal_externals (λ s. s) (no_cal ∷ a_cal ∷ [])
      ≡ returns agg)
    × (text_bytes agg.anchor_btc_agg_root ≡ toy_tree.root (firsts kept))
    × AllAnchored toy_sha (text_bytes agg.anchor_btc_agg_root) kept agg.proof_data
aggregate_anchor_tx-AllAnchored_example =
    aggregate_anchor_tx-AllAnchored toy_sha toy_tree toy_tree-MerkleLaws cal_externals (λ s. s)
      no_cal (a_cal ∷ []) root_is_long

-- A transaction that carries the root between two runs of bytes.
abbrev a_spend : BtcTxMsg
a_spend = record {
  anchor_btc_agg_id = str "a";
  anchor_btc_agg_root = hex_encode (171 ∷ 205 ∷ []);
  btc_tx_id = str "t";
  btc_tx_body = hex_encode (1 ∷ 2 ∷ 171 ∷ 205 ∷ 3 ∷ []);
  btc_tx_height = pos 0;
  cal_block_height = pos 0;
  begin_cal_tx_int = pos 0;
  end_cal_tx_int = pos 1;
}

spend_index :
    text_index a_spend.btc_tx_body a_spend.anchor_btc_agg_root
    ≡ some (length (hex_encode (1 ∷ 2 ∷ [])))
unfolding text_index hex_encode
spend_index = refl

generate_anchor_btc_tx_state-computes_example :
    (s : AnchorBtcTxState) × (generate_anchor_btc_tx_state toy_ops a_spend ≡ returns s)
    × ((toy_ops.decode s.btc_tx_state).1 ≡ false)
    × (eval toy_sha (171 ∷ 205 ∷ []) (toy_ops.decode s.btc_tx_state).0.ops
        ≡ toy_sha (toy_sha (1 ∷ 2 ∷ 171 ∷ 205 ∷ 3 ∷ [])))
generate_anchor_btc_tx_state-computes_example =
    generate_anchor_btc_tx_state-computes toy_sha toy_ops toy_ops-OpsJsonLaws a_spend (1 ∷ 2 ∷ [])
      (171 ∷ 205 ∷ []) (3 ∷ []) (omega arith, (omega arith, tt)) (omega arith, tt) refl refl
      spend_index

abbrev a_state : AggState
a_state = record {
  proof_id = str "p";
  hash = str "00ff";
  agg_id = str "g";
  agg_state = 0 ∷ [];
  agg_root = str "00ff";
}

add_calendar_branch-computes_example :
    let (after, failed) = add_calendar_branch toy_ops empty a_state (0 ∷ []) (str "cal") in
    (failed ≡ false)
    × ((branch : P) × (get_field (str "branches") after ≡ some (objects (single branch)))
        × ((acc : Str)
            → eval_branch toy_sha acc branch
              ≡ eval toy_sha
                  (eval toy_sha acc (toy_ops.decode (0 ∷ [])).0.ops)
                  (toy_ops.decode_anchor (0 ∷ [])).0.ops))
    × ((k : Str) → str_eq (str "branches") k ≡ false → get_field k after ≡ get_field k empty)
add_calendar_branch-computes_example =
    add_calendar_branch-computes toy_sha toy_ops empty a_state (0 ∷ []) (str "cal") refl refl

abbrev a_proof : P
a_proof =
    field (str "branches") (objects (single (field (str "label") (text (str "l")) empty))) empty

abbrev an_anchor : AnchorBtcAggState
an_anchor = record { cal_id = []; anchor_btc_agg_id = []; anchor_btc_agg_state = 0 ∷ [] }

abbrev a_tx_state : AnchorBtcTxState
a_tx_state = record { anchor_btc_agg_id = []; btc_tx_id = []; btc_tx_state = 0 ∷ [] }

abbrev a_head : AnchorBtcHeadState
a_head = record { btc_tx_id = []; btc_head_height = pos 9; btc_head_state = 0 ∷ [] }

has_branch :
    get_field (str "branches") a_proof
    ≡ some (objects (cons (field (str "label") (text (str "l")) empty) nil))
unfolding get_field str_eq
has_branch = refl

add_chain_branch-computes_example :
    (after : P) × (first : P) × (branch : P) × (add_chain_branch toy_ops a_proof an_anchor
        a_tx_state a_head
        (str "btc")
      ≡ returns (after, false))
    × (get_field (str "branches") after ≡ some (objects (cons first nil)))
    × (get_field (str "branches") first ≡ some (objects (single branch)))
    × ((acc : Str)
        → eval_branch toy_sha acc branch
          ≡ eval toy_sha
              (eval toy_sha
                (eval toy_sha acc (toy_ops.decode (0 ∷ [])).0.ops)
                (toy_ops.decode (0 ∷ [])).0.ops)
              (toy_ops.decode_anchor (0 ∷ [])).0.ops)
    × ((acc : Str)
        → eval_branch toy_sha acc first
          ≡ eval_branch toy_sha acc (field (str "label") (text (str "l")) empty))
add_chain_branch-computes_example =
    add_chain_branch-computes toy_sha toy_ops a_proof (field (str "label") (text (str "l")) empty)
      nil an_anchor a_tx_state a_head (str "btc") has_branch refl refl refl
