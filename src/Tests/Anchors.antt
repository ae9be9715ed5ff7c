-- ===== src/Tests/Anchors.antt =====
-- The anchor engine, the client of Tendermint and the aggregator's queue at work.
use chainpoint_core.Prelude.{
  ◌/◌, ◌+◌, pos, ◌-ℤ◌, ◌+ℤ◌, Str, str, str_eq, Dict, pad, true, false, Option, none, some, List, [],
  ◌∷◌, ◌++◌, length, ◌≡◌, refl, arith, returns,
}
use chainpoint_core.Types.{AnchorRange, TxId, BtcAgg, Aggregation}
use chainpoint_core.Strconv.Hex.{hex_encode, hex_decode, IsBytes}
use chainpoint_core.Util.Tx.{decode_tx}
use chainpoint_core.Util.TxHex.{reverse_tx_hex, reverse_any, pairs, runes_from, extra_bytes}
use chainpoint_core.LevelDb.KvStore.Arrays.{
  ArrayOp, Arrays, IsView, Works, run, array_step, run-IsView,
}
use chainpoint_core.Merkle.{Each}
use chainpoint_core.Merkle.Eval.{eval}
use chainpoint_core.Calendar.{head_items, kept_leaves, agg_of, tree_of, aggregate_anchor_tx}
use chainpoint_core.Aggregator.Queue.{
  Held, Stop, HandsOver, QueueOps, QueueLaws, aggregate_and_reset, aggregate_and_reset-items,
}
use chainpoint_core.Rpc.{
  TmClient, ResultTxSearch, Paged, all_pages, get_tx_by_int, cal_txs_from, get_cal_tx_range,
}
use chainpoint_core.Rpc.Pages.{txs_of_pages, all_pages-found}
use chainpoint_core.Rpc.Ranges.{get_cal_tx_range-split}
use chainpoint_core.Anchor.{
  AnchorError, AnchorJson, LightningClient, BlockAnswer, BlockDetails, Engine, Sent,
  check_btc_tx_ids_key, confirmed_btc_tx_ids_key, get_tree_from_cal_range, anchor_to_chain,
}
use chainpoint_core.Anchor.Confirm.{monitor_confirmed_tx}
use chainpoint_core.Anchor.Confirm.Removal.{select}
use chainpoint_core.Anchor.Confirm.Started.{
  is_deep, IsHeight, Confirms, monitor_confirmed_tx-Confirms,
}
use chainpoint_core.Anchor.Ranges.{Advances, anchor_to_chain-Advances}
use chainpoint_core.Anchor.Rewards.{Fair, anchor_reward-Fair}
use chainpoint_core.Anchor.Batch.{anchor_reward}
use chainpoint_core.Anchor.Checks.{find_and_remove_btc_check}
use chainpoint_core.Anchor.Checks.Removal.{Filtered, kept, find_and_remove_btc_check-Filtered}
use chainpoint_core.Anchor.Headers.{
  generate_btc_header_proof, get_block_tree, last_index, block_leaves,
}
use chainpoint_core.Anchor.Headers.Sound.{generate_btc_header_proof-computes}
use chainpoint_core.Tests.Fixtures.{
  toy_db, toy_externals, toy_election, toy_state, toy_config, toy_btc_tx,
}
use chainpoint_core.Tests.Store.{
  toy_db-DbLaws, toy_json, toy_json-StringsJsonLaws, EveryKey, empty-IsView,
}
use chainpoint_core.Tests.Trees.{toy_sha, toy_tree, toy_tree-MerkleLaws}
use chainpoint_core.Tests.Proofs.{cal_externals, a_cal}

abbrev one_result : ResultTxSearch
one_result = record { total_count = 1; txs = a_cal ∷ [] }

-- Tendermint answers every search with one CAL.
abbrev toy_client : TmClient
toy_client = record {
  tx_search = λ query page per_page order. some one_result;
  tx = λ hash. some a_cal;
}

all_pages-found_example :
    all_pages toy_client toy_externals 2 (str "q") (str "asc") 1 2 []
    ≡ Paged.found (
        txs_of_pages toy_client toy_externals
          (str "q")
          (str "asc")
          (λ i. one_result)
          1
          (1 / 100 + 1))
all_pages-found_example =
    all_pages-found toy_client toy_externals (str "q") (str "asc") 1 (λ i. one_result)
      (λ i l u. (refl, refl)) 2 (omega arith)

get_cal_tx_range-split_example :
    get_cal_tx_range toy_client (pos 0) (pos 2) ≡ (a_cal ∷ a_cal ∷ [], none)
unfolding get_cal_tx_range cal_txs_from get_tx_by_int ◌-ℤ◌
get_cal_tx_range-split_example =
    get_cal_tx_range-split toy_client 0 1 1 (a_cal ∷ []) (a_cal ∷ []) (omega arith) (omega arith)
      (omega arith) refl refl

abbrev toy_queue : QueueOps Aggregation (List (Held Aggregation))
toy_queue = record {
  get_len = λ q. length q;
  enqueue = λ q a. (q ++ Held.asserted a ∷ [], false);
  dequeue = λ q. elim q [ [] ↦ (none, []) | ◌∷◌ a rest ↦ (some a, rest) ];
}

toy_queue-QueueLaws : QueueLaws Aggregation (List (Held Aggregation)) toy_queue
toy_queue-QueueLaws = record {
  items = λ q. q;
  len = λ q. refl;
  first = λ q a rest e. rw e (refl, refl);
  last = λ q a e. refl;
  none_left = λ q e. rw e refl;
}

abbrev a_batch : Aggregation
a_batch = record { agg_id = str "g"; agg_root = str "0b"; agg_states = [] }

-- Two aggregations, in a queue that holds nothing else.
abbrev two_batches : List (Held Aggregation)
two_batches = Held.asserted a_batch ∷ Held.asserted (record a_batch { agg_id = str "h" }) ∷ []

aggregate_and_reset-items_example :
    HandsOver toy_queue toy_queue-QueueLaws Stop.opened two_batches
      (aggregate_and_reset toy_queue Stop.opened two_batches)
aggregate_and_reset-items_example =
    aggregate_and_reset-items toy_queue toy_queue-QueueLaws Stop.opened two_batches

-- A check is stored as its root; the empty text is none.
abbrev toy_range : Str → AnchorRange
toy_range s = record {
  anchor_btc_agg_root = s;
  cal_block_height = pos 0;
  btc_block_height = pos 0;
  begin_cal_tx_int = pos 0;
  end_cal_tx_int = pos 1;
  am_leader = true;
}

abbrev toy_anchor_json : AnchorJson
toy_anchor_json = record {
  anchor_range = record {
    encode = λ a. some a.anchor_btc_agg_root;
    decode = λ s. (toy_range s, str_eq s []);
  };
  tx_id = record {
    encode = λ t. some t.tx_id;
    decode = λ s. (record { tx_id = s; block_height = pos 0; anchor_btc_agg_root = s }, false);
  };
  btc_tx_msg = record { encode = λ m. some m.btc_tx_id; decode = λ s. (toy_btc_tx, false) };
  btc_mon_msg = record {
    encode = λ m. some m.btc_tx_id;
    decode = λ s.
        (record { btc_tx_id = s; btc_head_height = pos 9; btc_head_root = s; path = [] }, false);
  };
}

always_works : (d : Dict Str) → Works toy_db toy_json d
always_works d = record { sets = λ k v. refl; deletes = λ k. refl }

no_empty_check : (toy_anchor_json.anchor_range.decode []).1 ≡ true
unfolding str_eq
no_empty_check = refl

abbrev storing : ArrayOp
storing = ArrayOp.appended check_btc_tx_ids_key (str "r") (omega arith, tt)

abbrev one_check : Dict Str
one_check = (run toy_db toy_json storing []).0

abbrev one_check_array : Arrays
one_check_array = array_step storing (λ k. [])

one_check-IsView : IsView toy_db toy_json EveryKey one_check one_check_array
one_check-IsView =
    (run-IsView toy_db toy_json toy_db-DbLaws toy_json-StringsJsonLaws EveryKey storing [] (λ k. [])
      tt empty-IsView (always_works [])).1

find_and_remove_btc_check-Filtered_example :
    Filtered toy_db toy_json toy_anchor_json toy_db-DbLaws toy_json-StringsJsonLaws EveryKey tt
      always_works no_empty_check
      (str "r")
      (find_and_remove_btc_check toy_db toy_json toy_anchor_json (str "r") one_check)
      one_check_array
      (kept toy_anchor_json.anchor_range (str "r") (one_check_array check_btc_tx_ids_key))
find_and_remove_btc_check-Filtered_example =
    find_and_remove_btc_check-Filtered toy_db toy_json toy_anchor_json toy_db-DbLaws
      toy_json-StringsJsonLaws EveryKey tt always_works no_empty_check (str "r") one_check
      one_check_array one_check-IsView

-- A block of two transactions.
abbrev two_ids : List Str
two_ids = str "0102" ∷ str "0304" ∷ []

abbrev a_block : BlockDetails
a_block = record {
  transactions = two_ids;
  merkle_root = toy_tree.btc_root ((2 ∷ 1 ∷ []) ∷ (4 ∷ 3 ∷ []) ∷ []);
}

abbrev toy_lnd : LightningClient
toy_lnd = record {
  get_info = some 9;
  get_block_by_height = λ h. BlockAnswer.block a_block;
  send_op_return = λ root. some (str "t", hex_encode root);
  get_transaction = λ id. some [];
  send_coins = λ address amount. some (str "t");
}

abbrev a_tx_id : TxId
a_tx_id = record { tx_id = str "0304"; block_height = pos 9; anchor_btc_agg_root = [] }

a_header : (generate_btc_header_proof toy_tree toy_lnd a_tx_id).1 ≡ none
unfolding generate_btc_header_proof get_block_tree last_index block_leaves str_eq pad reverse_tx_hex
    reverse_any pairs runes_from extra_bytes hex_decode hex_encode
a_header = refl

a_block-IsBytes : IsBytes a_block.merkle_root
unfolding pad
a_block-IsBytes =
    toy_tree-MerkleLaws.btc_root_bytes ((2 ∷ 1 ∷ []) ∷ (4 ∷ 3 ∷ []) ∷ [])
      ((omega arith, (omega arith, tt)), ((omega arith, (omega arith, tt)), tt))

generate_btc_header_proof-computes_example :
    eval toy_sha
      (hex_decode (reverse_tx_hex (str "0304"))).0
      (head_items (generate_btc_header_proof toy_tree toy_lnd a_tx_id).0.path)
    ≡ a_block.merkle_root
generate_btc_header_proof-computes_example =
    generate_btc_header_proof-computes toy_sha toy_tree toy_tree-MerkleLaws toy_lnd a_tx_id a_block
      refl a_block-IsBytes a_header

anchor_reward-Fair_example :
    Fair toy_lnd
      (λ uri. uri)
      (λ ip. ip)
      toy_config
      toy_state
      (str "c")
      (anchor_reward toy_lnd (λ uri. uri) (λ ip. ip) toy_config toy_state (str "c"))
anchor_reward-Fair_example =
    anchor_reward-Fair toy_lnd (λ uri. uri) (λ ip. ip) toy_config toy_state (str "c")

abbrev toy_engine : Engine (Dict Str)
toy_engine = record { state = toy_state; db = [] }

abbrev a_tree : BtcAgg
a_tree = agg_of toy_tree (λ s. s) (kept_leaves cal_externals (a_cal ∷ []))

a_range :
    get_tree_from_cal_range toy_tree cal_externals (λ s. s) toy_client (pos 0) (pos 1)
    ≡ returns (a_tree, none)
unfolding get_tree_from_cal_range get_cal_tx_range cal_txs_from get_tx_by_int aggregate_anchor_tx
    tree_of kept_leaves decode_tx hex_decode str_eq pad ◌-ℤ◌
a_range = refl

anchor_to_chain-Advances_example :
    (result : Engine (Dict Str) × Sent × Option AnchorError) × (anchor_to_chain toy_db toy_json
        toy_tree cal_externals
        (λ s. s)
        toy_client
        toy_lnd
        toy_anchor_json
        toy_election
        (λ kind data_. false)
        toy_config
        (pos 0)
        (pos 1)
        toy_engine
      ≡ returns result)
    × Advances toy_state (pos 1) result
anchor_to_chain-Advances_example =
    anchor_to_chain-Advances toy_db toy_json toy_tree cal_externals (λ s. s) toy_client toy_lnd
      toy_anchor_json toy_election (λ kind data_. false) toy_config (λ kind data_. refl) (pos 0)
      (pos 1) toy_engine (a_tree, none) a_range

-- One transaction in the block of height 9 is stored, and the chain has the height 14. The empty
-- text does not parse.
abbrev block_9_json : AnchorJson
block_9_json = record toy_anchor_json {
  tx_id = record {
    encode = λ t. some t.tx_id;
    decode = λ s. (record a_tx_id { tx_id = s }, str_eq s []);
  };
}

abbrev waiting : ArrayOp
waiting =
    ArrayOp.appended confirmed_btc_tx_ids_key (str "0304")
      (omega arith, (omega arith, (omega arith, (omega arith, tt))))

abbrev deep_engine : Engine (Dict Str)
deep_engine = record {
  state = record toy_state { btc_height = pos 14 };
  db = (run toy_db toy_json waiting []).0;
}

abbrev deep_array : Arrays
deep_array = array_step waiting (λ k. [])

deep_engine-IsView : IsView toy_db toy_json EveryKey deep_engine.db deep_array
deep_engine-IsView =
    (run-IsView toy_db toy_json toy_db-DbLaws toy_json-StringsJsonLaws EveryKey waiting [] (λ k. [])
      tt empty-IsView (always_works [])).1

no_empty_tx : (block_9_json.tx_id.decode []).1 ≡ true
unfolding str_eq
no_empty_tx = refl

one_deep :
    select
      (λ s. is_deep (pos 14) (block_9_json.tx_id.decode s))
      (deep_array confirmed_btc_tx_ids_key)
    ≡ str "0304" ∷ []
unfolding str_eq ◌+ℤ◌
one_deep = refl

deep_heights :
    Each
      (λ s. IsHeight (block_9_json.tx_id.decode s).0.block_height)
      (deep_array confirmed_btc_tx_ids_key)
unfolding str_eq
deep_heights = ((refl, omega arith), tt)

monitor_confirmed_tx-Confirms_example :
    Confirms toy_db toy_json block_9_json toy_db-DbLaws toy_json-StringsJsonLaws EveryKey tt
      always_works no_empty_tx toy_lnd toy_tree deep_engine deep_array
      (monitor_confirmed_tx toy_db toy_json block_9_json toy_lnd toy_tree deep_engine)
monitor_confirmed_tx-Confirms_example =
    monitor_confirmed_tx-Confirms toy_db toy_json block_9_json toy_db-DbLaws
      toy_json-StringsJsonLaws EveryKey tt always_works no_empty_tx toy_lnd toy_tree deep_engine
      deep_array deep_engine-IsView (refl, omega arith) deep_heights
