-- ===== src/Anchor/Confirm.antt =====
-- anchor/bitcoin/bitcoinanchor.go: an anchor's transaction from the mempool to six confirmations.
pub mod Removal
pub mod Started
use chainpoint_core.Prelude.{
  ℕ, zero, suc, ◌==◌, ℤ, pos, pos_part, ◌-ℤ◌, add64, sub64, inc64, ltb_ℤ, eqb_ℤ, Str, str_eq, Bool,
  true, false, not, ◌&&◌, Option, none, some, List, [], ◌∷◌, if◌then◌else◌, Run, returns, ◌>>=◌,
}
use chainpoint_core.Types.{AnchorState, TxId, BtcTxMsg, BtcMonMsg, BtcAgg}
use chainpoint_core.Externals.{Externals}
use chainpoint_core.LevelDb.{DbOps, StringsJson}
use chainpoint_core.LevelDb.KvStore.{StoreError, get_array, append, del}
use chainpoint_core.ProofDb.{
  Json, ProofDbError, RecordsJson, bulk_insert_btc_tx_state, bulk_insert_btc_agg_state,
}
use chainpoint_core.Merkle.{MerkleOps}
use chainpoint_core.Calendar.{OpsJson, generate_anchor_btc_tx_state, prepare_btca_state_data}
use chainpoint_core.Rpc.{TmClient}
use chainpoint_core.Anchor.{
  AnchorJson, AnchorError, BlockAnswer, LightningClient, Engine, confirmed_btc_tx_ids_key,
  text_or_empty, set_state, get_tree_from_cal_range,
}
use chainpoint_core.Anchor.Checks.{find_and_remove_btc_check}
use chainpoint_core.Anchor.Headers.{generate_btc_header_proof, says_not_found}

-- The transactions that wait for a block, with their texts.
abbrev pub Pending : Type 0
Pending = List (Str × TxId)

abbrev pub is_pending : TxId × Bool → Bool
is_pending (tx, failed) = not failed && eqb_ℤ tx.block_height (pos 0)

unfoldable pub pending_of : Json TxId → List Str → Pending
pending_of j [] = []
pending_of j (s ∷ ss) =
    let rest = pending_of j ss in
    if is_pending (j.decode s) then (s, (j.decode s).0) ∷ rest else rest

-- ArrayContainsIndex over the ids of the transactions.
unfoldable pub find_pending : Str → Pending → Option (Str × TxId)
find_pending t [] = none
find_pending t ((s, tx) ∷ rest) =
    let more = find_pending t rest in if str_eq tx.tx_id t then some (s, tx) else more

module _ {D : Type 0} (ops : DbOps D) (js : StringsJson) (aj : AnchorJson) where
  -- The text of a transaction gets the height of its block.
  unfoldable pub set_block : ℤ → Str × TxId → D → D
  unfolding del append
  set_block i (s, tx) d =
      (append ops js (del ops js d confirmed_btc_tx_ids_key s).0 confirmed_btc_tx_ids_key
        (text_or_empty (aj.tx_id.encode (record tx { block_height = i })))).0

  unfoldable pub scan_block : ℤ → Pending → List Str → D → D
  unfolding find_pending set_block
  scan_block i waiting [] d = d
  scan_block i waiting (t ∷ ts) d = elim (find_pending t waiting) [
    | none ↦ scan_block i waiting ts d
    | some p ↦ scan_block i waiting ts (set_block i p d)
  ]

  module _ (ln : LightningClient) where
    abbrev after_block :
        (D → D × Option AnchorError) → ℤ → Pending → D → BlockAnswer → D × Option AnchorError
    after_block more i waiting d (BlockAnswer.refused message) =
        (d, some (AnchorError.client message))
    after_block more i waiting d (BlockAnswer.block b) =
        more (scan_block i waiting b.transactions d)

    -- The loop over the blocks, with the number of rounds left.
    unfoldable pub scan_blocks : ℕ → ℤ → Pending → D → D × Option AnchorError
    unfolding scan_block
    scan_blocks zero i waiting d = (d, none)
    scan_blocks (suc n) i waiting d =
        after_block (scan_blocks n (inc64 i) waiting) i waiting d (ln.get_block_by_height i)

    -- MonitorBlocksForConfirmation
    unfoldable pub monitor_blocks_for_confirmation : ℤ → ℤ → D → D × Option AnchorError
    unfolding scan_blocks pending_of get_array
    monitor_blocks_for_confirmation start_height end_height d =
        let (results, e) = get_array ops js d confirmed_btc_tx_ids_key in
        elim e [
          | some err ↦ (d, some (AnchorError.store err))
          | none ↦
              scan_blocks (pos_part (inc64 end_height -ℤ start_height)) start_height
                (pending_of aj.tx_id results) d
        ]

    abbrev at_height : ℕ → AnchorState → AnchorState
    at_height h s = record s { btc_height = pos h }

    abbrev scanned : ℕ → Engine D → D × Option AnchorError → Engine D
    scanned h eng (d, some e) = record eng { db = d }
    scanned h eng (d, none) = record { state = at_height h eng.state; db = d }

    abbrev pub is_near : ℕ → AnchorState → Bool
    is_near h s = not (h == 0) && ltb_ℤ (sub64 (pos h) s.btc_height) (pos 36)

    abbrev new_height : ℕ → Engine D → Engine D
    new_height h eng =
        if eqb_ℤ eng.state.btc_height (pos h)
        then eng
        else if is_near h eng.state
        then scanned h eng (monitor_blocks_for_confirmation eng.state.btc_height (pos h) eng.db)
        else set_state eng (at_height h eng.state)

    -- BlockSyncMonitor
    unfoldable pub block_sync_monitor : Engine D → Engine D
    unfolding monitor_blocks_for_confirmation
    block_sync_monitor eng = elim ln.get_info [
      | none ↦ eng
      | some h ↦ new_height h (set_state eng (record eng.state { ln_block_height = h }))
    ]

    module _ (mt : MerkleOps) where
      -- Whether a transaction has its six confirmations.
      abbrev pub is_confirmed : ℤ → TxId → Bool
      is_confirmed btc_height tx =
          not (eqb_ℤ tx.block_height (pos 0))
          && not (ltb_ℤ (add64 (sub64 btc_height tx.block_height) (pos 1)) (pos 6))

      abbrev pub remove_tx : Str → D → D
      remove_tx s d = (del ops js d confirmed_btc_tx_ids_key s).0

      abbrev pub if_not_found : Str → Option AnchorError → D → D
      if_not_found s none d = d
      if_not_found s (some e) d = if says_not_found e then remove_tx s d else d

      -- The loop of MonitorConfirmedTx: the messages on which ConfirmAnchor is started. An error of the
      -- header's proof does not keep it from that, with the empty message.
      unfoldable pub confirm_txs : ℤ → List Str → D → D × List BtcMonMsg
      unfolding del generate_btc_header_proof
      confirm_txs btc_height [] d = (d, [])
      confirm_txs btc_height (s ∷ ss) d =
          let (tx, failed) = aj.tx_id.decode s in
          elim (not failed && is_confirmed btc_height tx) [
            | false ↦ confirm_txs btc_height ss d
            | true ↦
                let (msg, e) = generate_btc_header_proof mt ln tx in
                let (d', more) = confirm_txs btc_height ss (remove_tx s (if_not_found s e d)) in
                (d', msg ∷ more)
          ]

      -- MonitorConfirmedTx
      unfoldable pub monitor_confirmed_tx : Engine D → Engine D × List BtcMonMsg
      unfolding confirm_txs get_array
      monitor_confirmed_tx eng =
          let (results, e) = get_array ops js eng.db confirmed_btc_tx_ids_key in
          elim e [
            | some err ↦ (eng, [])
            | none ↦
                let (d, started) = confirm_txs eng.state.btc_height results eng.db in
                (record eng { db = d }, started)
          ]

  module _ (mt : MerkleOps) (ext : Externals) (uuid_of : Str → Str) (tm : TmClient) (oj : OpsJson)
      (rj : RecordsJson) (now : ℤ) where
    abbrev saved : D × Option ProofDbError → D × Option AnchorError
    saved (d, some e) = (d, some (AnchorError.proofs e))
    saved (d, none) = (d, none)

    abbrev tree_found : BtcTxMsg → D → BtcAgg × Option AnchorError → D × Option AnchorError
    tree_found msg d (agg, some e) = (d, some e)
    tree_found msg d (agg, none) =
        if str_eq agg.anchor_btc_agg_root msg.anchor_btc_agg_root
        then saved (bulk_insert_btc_agg_state ops js rj now (prepare_btca_state_data oj agg) d)
        else (d, some AnchorError.root_mismatch)

    abbrev monitored : BtcTxMsg → D × Option StoreError → Run (D × Option AnchorError)
    monitored msg (d, some e) = returns (d, some (AnchorError.store e))
    monitored msg (d, none) =
        get_tree_from_cal_range mt ext uuid_of tm msg.begin_cal_tx_int msg.end_cal_tx_int
        >>= λ tree.
            returns (
              tree_found msg (find_and_remove_btc_check ops js aj msg.anchor_btc_agg_root d).0 tree)

    abbrev tx_saved : BtcTxMsg → D × Option ProofDbError → Run (D × Option AnchorError)
    tx_saved msg (d, some e) = returns (d, some (AnchorError.proofs e))
    tx_saved msg (d, none) = monitored msg (
        append ops js d confirmed_btc_tx_ids_key (
          text_or_empty (
            aj.tx_id.encode (record {
              tx_id = msg.btc_tx_id;
              block_height = pos 0;
              anchor_btc_agg_root = msg.anchor_btc_agg_root;
            }))))

    -- BeginTxMonitor
    unfoldable pub begin_tx_monitor : Str → Engine D → Run (Engine D × Option AnchorError)
    unfolding find_and_remove_btc_check get_tree_from_cal_range append bulk_insert_btc_tx_state
        bulk_insert_btc_agg_state prepare_btca_state_data generate_anchor_btc_tx_state
    begin_tx_monitor msg_bytes eng =
        let (msg, failed) = aj.btc_tx_msg.decode msg_bytes in
        let s = record eng.state {
          latest_btc_tx = msg.btc_tx_id;
          latest_btc_agg_root = msg.anchor_btc_agg_root;
        } in
        if failed
        then returns (eng, some AnchorError.bad_message)
        else generate_anchor_btc_tx_state oj msg >>= λ tx_state.
            tx_saved msg (bulk_insert_btc_tx_state ops js rj now (tx_state ∷ []) eng.db)
            >>= λ (d, e). returns (record { state = s; db = d }, e)
