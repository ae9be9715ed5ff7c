-- ===== src/Anchor.antt =====
-- anchor/bitcoin/bitcoinanchor.go: the engine that anchors the calendar to Bitcoin. The services
-- around it (lnd, Tendermint) are parameters.
pub mod Checks
pub mod Headers
pub mod Confirm
pub mod Batch
pub mod Proofs
pub mod Ranges
pub mod Rewards
use chainpoint_core.Prelude.{
  ℕ, ℤ, pos, negsuc, Str, str, str_eq, Bool, Option, none, some, List, [], ◌∷◌, ◌++◌, if◌then◌else◌,
  Run, returns, panics, ◌>>=◌,
}
use chainpoint_core.Types.{
  AnchorState, AnchorConfig, AnchorRange, BtcAgg, BtcTxMsg, BtcMonMsg, TxId,
}
use chainpoint_core.Externals.{Externals}
use chainpoint_core.Strconv.Hex.{hex_decode}
use chainpoint_core.LevelDb.{DbOps, StringsJson}
use chainpoint_core.LevelDb.KvStore.{StoreError, append}
use chainpoint_core.LeaderElection.{Election, elect_chain_contributor_as_leader}
use chainpoint_core.ProofDb.{Json, ProofDbError}
use chainpoint_core.Merkle.{MerkleOps}
use chainpoint_core.Calendar.{ResultTx, aggregate_anchor_tx, empty_btc_agg}
use chainpoint_core.Rpc.{TmClient, RpcError, get_cal_tx_range}

abbrev pub confirmed_btc_tx_ids_key : Str
confirmed_btc_tx_ids_key = str "BTC_Mon:ConfirmedBTCTxIds"

abbrev pub check_btc_tx_ids_key : Str
check_btc_tx_ids_key = str "BTC_Mon:CheckNewBTCTxIds"

-- A block of Bitcoin: the ids of its transactions and the root of its tree.
pub record BlockDetails : Type 0 where
  pub transactions : List Str
  pub merkle_root : Str

-- The calls of lnd: no result is an error, with its text where the code looks at it.
pub data BlockAnswer : Type 0 where
  block : BlockDetails → BlockAnswer
  refused : Str → BlockAnswer

pub record LightningClient : Type 0 where
  pub get_info : Option ℕ  -- the height of the last block, a uint32
  pub get_block_by_height : ℤ → BlockAnswer
  pub send_op_return : Str → Option (Str × Str)
  -- the heights of the blocks of the transactions that GetTransaction finds
  pub get_transaction : Str → Option (List ℤ)
  pub send_coins : Str → ℤ → Option Str

pub record AnchorJson : Type 0 where
  pub anchor_range : Json AnchorRange
  pub tx_id : Json TxId
  pub btc_tx_msg : Json BtcTxMsg
  pub btc_mon_msg : Json BtcMonMsg

-- The errors that the engine returns.
pub data AnchorError : Type 0 where
  no_leader no_transactions bad_root send_failed bad_message root_mismatch : AnchorError
  rpc : RpcError → AnchorError
  store : StoreError → AnchorError
  proofs : ProofDbError → AnchorError
  client : Str → AnchorError
  tx_not_found block_root_mismatch no_agg_state no_tx_state no_btcc bad_proof : AnchorError
  not_rewarded : AnchorError

-- The state of the engine: the application's, and the database under the cache.
pub record Engine (D : Type 0) : Type 0 where
  pub state : AnchorState
  pub db : D

-- The transactions that the engine broadcasts: the kind and the data.
abbrev pub Sent : Type 0
Sent = List (Str × Str)

-- json.Marshal with the error ignored
abbrev pub text_or_empty : Option Str → Str
text_or_empty none = []
text_or_empty (some t) = t

module _ (mt : MerkleOps) (ext : Externals) (uuid_of : Str → Str) (tm : TmClient) where
  abbrev tree_of_txs : List ResultTx × Option RpcError → Run (BtcAgg × Option AnchorError)
  tree_of_txs (txs, some e) = returns (empty_btc_agg, some (AnchorError.rpc e))
  tree_of_txs (txs, none) = aggregate_anchor_tx mt ext uuid_of txs >>= λ agg. returns (agg, none)

  -- GetTreeFromCalRange
  unfoldable pub get_tree_from_cal_range : ℤ → ℤ → Run (BtcAgg × Option AnchorError)
  unfolding aggregate_anchor_tx get_cal_tx_range
  get_tree_from_cal_range start_tx_range end_tx_range =
      tree_of_txs (get_cal_tx_range tm start_tx_range end_tx_range)

module _ (ln : LightningClient) (aj : AnchorJson) where
  abbrev btc_msg : BtcAgg → ℤ → ℤ → ℤ → Str → Str → BtcTxMsg
  btc_msg agg height start end_tx txid rawtx = record {
    anchor_btc_agg_id = agg.anchor_btc_agg_id;
    anchor_btc_agg_root = agg.anchor_btc_agg_root;
    btc_tx_id = txid;
    btc_tx_body = rawtx;
    btc_tx_height = pos 0;
    cal_block_height = height;
    begin_cal_tx_int = start;
    end_cal_tx_int = end_tx;
  }

  abbrev sent_msg : BtcAgg → ℤ → ℤ → ℤ → Option (Str × Str) → Str × Option AnchorError
  sent_msg agg height start end_tx none = ([], some AnchorError.send_failed)
  sent_msg agg height start end_tx (some (txid, rawtx)) =
      elim (aj.btc_tx_msg.encode (btc_msg agg height start end_tx txid rawtx)) [
        | none ↦ ([], some AnchorError.bad_message)
        | some text ↦ (text, none)
      ]

  -- SendBtcTx: the message to broadcast, and the error
  unfoldable pub send_btc_tx : BtcAgg → ℤ → ℤ → ℤ → Str × Option AnchorError
  send_btc_tx agg height start end_tx =
      let (root, good) = hex_decode agg.anchor_btc_agg_root in
      if good
      then sent_msg agg height start end_tx (ln.send_op_return root)
      else ([], some AnchorError.bad_root)

module _ {D : Type 0} where
  abbrev pub set_state : Engine D → AnchorState → Engine D
  set_state eng s = record eng { state = s }

  -- ResetAnchor
  unfoldable pub reset_anchor : ℤ → Engine D → Engine D
  reset_anchor start_tx_range eng =
      set_state eng
        (record eng.state { begin_cal_tx_int = start_tx_range; latest_btca_height = negsuc 0 })

-- `fails` tells which broadcasts fail.
module _ {D : Type 0} (ops : DbOps D) (js : StringsJson) (mt : MerkleOps) (ext : Externals)
    (uuid_of : Str → Str) (tm : TmClient) (ln : LightningClient) (aj : AnchorJson) (el : Election)
    (fails : Str → Str → Bool) (config : AnchorConfig) where
  -- BroadcastTx, where an error panics
  abbrev pub must_send : Str → Str → Run Sent
  must_send kind data_ = if fails kind data_ then panics else returns ((kind, data_) ∷ [])

  -- The broadcasts of the leader. After a failed SendBtcTx the BTC-A is sent too, with what there is.
  abbrev pub lead : Str → Str × Option AnchorError → Run Sent
  lead root (btca, none) = must_send (str "BTC-A") btca
  lead root (btca, some e) =
      must_send (str "BTC-E") root >>= λ a. must_send (str "BTC-A") btca >>= λ b. returns (a ++ b)

  -- The range that the engine watches.
  abbrev pub check_of : AnchorState → Bool → Str → ℤ → ℤ → AnchorRange
  check_of s am_leader root start end_tx = record {
    anchor_btc_agg_root = root;
    cal_block_height = s.height;
    btc_block_height = pos s.ln_block_height;
    begin_cal_tx_int = start;
    end_cal_tx_int = end_tx;
    am_leader = am_leader;
  }

  abbrev pub range_done : AnchorState → ℤ → AnchorState
  range_done s end_tx = record s {
    begin_cal_tx_int = end_tx;
    end_cal_tx_int = end_tx;
    latest_btca_height = s.height;
  }

  abbrev pub watched : Engine D → ℤ → D × Option StoreError → Engine D × Option AnchorError
  watched eng end_tx (d, some e) = (record eng { db = d }, some (AnchorError.store e))
  watched eng end_tx (d, none) = (record { state = range_done eng.state end_tx; db = d }, none)

  -- The last part of AnchorToChain: the range is watched from now on, and the next one begins.
  unfoldable pub watch : Engine D → Bool → Str → ℤ → ℤ → Engine D × Option AnchorError
  unfolding append
  watch eng am_leader root start end_tx = watched eng end_tx (
      append ops js eng.db check_btc_tx_ids_key
        (text_or_empty (aj.anchor_range.encode (check_of eng.state am_leader root start end_tx))))

  abbrev pub elected : AnchorState → Str → Str → AnchorState
  elected s leader root = record s {
    last_elected_core_id = leader;
    latest_err_root = if str_eq root s.latest_err_root then [] else s.latest_err_root;
  }

  abbrev pub no_sent : Engine D → AnchorError → Run (Engine D × Sent × Option AnchorError)
  no_sent eng e = returns (eng, [], some e)

  abbrev pub with_tree :
      Engine D
      → Bool
      → Str
      → ℤ
      → ℤ
      → BtcAgg × Option AnchorError
      → Run (Engine D × Sent × Option AnchorError)
  with_tree eng am_leader leader start end_tx (agg, some e) = no_sent eng e
  with_tree eng am_leader leader start end_tx (agg, none) =
      let root = agg.anchor_btc_agg_root in
      let eng' = set_state eng (elected eng.state leader root) in
      if str_eq root []
      then no_sent eng AnchorError.no_transactions
      else (if am_leader
          then lead root (send_btc_tx ln aj agg eng.state.height start end_tx)
          else returns [])
        >>= λ sent.
            let (after, e) = watch eng' am_leader root start end_tx in returns (after, sent, e)

  abbrev pub with_leaders :
      Engine D → ℤ → ℤ → Bool × List Str → Run (Engine D × Sent × Option AnchorError)
  with_leaders eng start end_tx (am_leader, []) = no_sent eng AnchorError.no_leader
  with_leaders eng start end_tx (am_leader, leader ∷ others) =
      get_tree_from_cal_range mt ext uuid_of tm start end_tx >>= λ tree.
      with_tree eng am_leader leader start end_tx tree

  abbrev pub for_test : AnchorState → AnchorState
  for_test s =
      if str_eq config.election_mode (str "test") then record s { last_error_core_id = [] } else s

  -- AnchorToChain
  unfoldable pub anchor_to_chain : ℤ → ℤ → Engine D → Run (Engine D × Sent × Option AnchorError)
  unfolding watch get_tree_from_cal_range send_btc_tx elect_chain_contributor_as_leader
  anchor_to_chain start_tx_range end_tx_range eng =
      let s = for_test eng.state in
      with_leaders (set_state eng s) start_tx_range end_tx_range
        (elect_chain_contributor_as_leader el (pos 1) (s.last_error_core_id ∷ []) s)
