-- ===== src/Anchor/Proofs.antt =====
-- anchor/bitcoin/bitcoinanchor.go: ConfirmAnchor, and ConstructProof, which makes the proof of a
-- calendar transaction from the chains alone.
use chainpoint_core.Prelude.{
  ℤ, pos, eqb_ℤ, Str, str, str_eq, lookup_or, Option, none, some, List, [], ◌∷◌, ◌++◌,
  if◌then◌else◌, Run, returns, ◌>>=◌,
}
use chainpoint_core.Types.{
  AnchorState, AnchorConfig, AnchorBtcAggState, AnchorBtcTxState, BtcTxMsg, BtcMonMsg, BtcAgg,
}
use chainpoint_core.Externals.{Externals}
use chainpoint_core.Strconv.Hex.{hex_encode, hex_decode}
use chainpoint_core.Util.TxHex.{reverse_tx_hex}
use chainpoint_core.LevelDb.{DbOps, StringsJson}
use chainpoint_core.LeaderElection.{Election, elect_validator_as_leader}
use chainpoint_core.ProofDb.{RecordsJson, get_proof_ids_by_btc_tx_id}
use chainpoint_core.Merkle.{MerkleOps}
use chainpoint_core.Calendar.{
  OpsJson, generate_head_state_object, generate_anchor_btc_tx_state, prepare_btca_state_data,
}
use chainpoint_core.Rpc.{
  TmClient, RpcError, get_btca_for_cal_tx, get_anchor_height, get_btcc_for_btc_root,
  get_anchoring_core,
}
use chainpoint_core.Proof.{P, empty, IdTimes, add_chain_branch, set_proof_type}
use chainpoint_core.Anchor.{
  AnchorJson, AnchorError, BlockAnswer, LightningClient, Sent, text_or_empty,
  get_tree_from_cal_range,
}
use chainpoint_core.Anchor.Headers.{generate_btc_header_proof, empty_btc_mon_msg}
use chainpoint_core.Anchor.Batch.{aggs_by_cal, empty_anchor_agg, generate_btc_batch}

abbrev no_proof : AnchorError → Run (P × Option AnchorError)
no_proof e = returns (empty, some e)

module _ (mt : MerkleOps) (ext : Externals) (uuid_of : Str → Str) (tm : TmClient)
    (ln : LightningClient) (oj : OpsJson) (to_lower : Str → Str) (config : AnchorConfig) where
  abbrev head_hash : ℤ → BlockAnswer → (Str × ℤ) × Option AnchorError
  head_hash height (BlockAnswer.refused message) = (([], height), some (AnchorError.client message))
  head_hash height (BlockAnswer.block b) =
      let hash =
        get_btcc_for_btc_root tm (record empty_btc_mon_msg {
          btc_head_root = reverse_tx_hex (hex_encode b.merkle_root);
        }) in
      ((hash, height), if str_eq hash [] then some AnchorError.no_btcc else none)

  abbrev first_height : List ℤ → ℤ
  first_height [] = pos 0
  first_height (h ∷ hs) = h

  -- The height from lnd, when Tendermint has none: the hash of the BTC-C and the height.
  unfoldable pub height_from_chain : BtcTxMsg → (Str × ℤ) × Option AnchorError
  unfolding reverse_tx_hex get_btcc_for_btc_root
  height_from_chain btca =
      let (bytes, good) = hex_decode btca.btc_tx_id in
      if good
      then elim (ln.get_transaction bytes) [
        | none ↦ (([], pos 0), some (AnchorError.client []))
        | some heights ↦
            head_hash (first_height heights) (ln.get_block_by_height (first_height heights))
      ]
      else (([], pos 0), some AnchorError.bad_root)

  abbrev height_of : BtcTxMsg → (Str × ℤ) × Option AnchorError
  height_of btca =
      let (hash, height) = get_anchor_height tm btca in
      if eqb_ℤ height (pos 0) then height_from_chain btca else ((hash, height), none)

  abbrev chain_proof :
      Str
      → List AnchorBtcAggState
      → AnchorBtcTxState
      → Str
      → BtcMonMsg × Option AnchorError
      → Run (P × Option AnchorError)
  chain_proof txid aggs tx_state hash (msg, some e) = no_proof e
  chain_proof txid aggs tx_state hash (msg, none) =
      add_chain_branch oj empty (lookup_or empty_anchor_agg txid (aggs_by_cal aggs [])) tx_state
        (generate_head_state_object oj to_lower config.core_uri hash msg)
        (set_proof_type config.bitcoin_network (str "btc"))
      >>= λ (p, failed). if failed then no_proof AnchorError.bad_proof else returns (p, none)

  abbrev with_height :
      Str
      → List AnchorBtcAggState
      → BtcTxMsg
      → AnchorBtcTxState
      → (Str × ℤ) × Option AnchorError
      → Run (P × Option AnchorError)
  with_height txid aggs btca tx_state (at, some e) = no_proof e
  with_height txid aggs btca tx_state ((hash, height), none) = chain_proof txid aggs tx_state hash (
      generate_btc_header_proof mt ln
        (record { tx_id = btca.btc_tx_id; block_height = height; anchor_btc_agg_root = [] }))

  abbrev with_agg : Str → BtcTxMsg → BtcAgg × Option AnchorError → Run (P × Option AnchorError)
  with_agg txid btca (agg, some e) = no_proof e
  with_agg txid btca (agg, none) =
      if str_eq agg.anchor_btc_agg_root btca.anchor_btc_agg_root
      then (generate_anchor_btc_tx_state oj btca >>= λ tx_state.
          with_height txid (prepare_btca_state_data oj agg) btca tx_state (height_of btca))
      else no_proof AnchorError.root_mismatch

  abbrev with_btca : Str → BtcTxMsg × Option RpcError → Run (P × Option AnchorError)
  with_btca txid (btca, some e) = no_proof (AnchorError.rpc e)
  with_btca txid (btca, none) =
      get_tree_from_cal_range mt ext uuid_of tm btca.begin_cal_tx_int btca.end_cal_tx_int
      >>= λ tree. with_agg txid btca tree

  -- ConstructProof
  unfoldable pub construct_proof : Str → Run (P × Option AnchorError)
  unfolding get_btca_for_cal_tx get_tree_from_cal_range generate_anchor_btc_tx_state
      prepare_btca_state_data get_anchor_height height_from_chain generate_btc_header_proof
      generate_head_state_object add_chain_branch aggs_by_cal set_proof_type
  construct_proof txid = with_btca txid (get_btca_for_cal_tx tm ext txid)

-- A round of ConfirmAnchor's loop: the state and the answers of Tendermint that it finds.
pub record Round : Type 0 where
  pub state : AnchorState
  pub client : TmClient
  pub after : TmClient  -- what Tendermint answers at the end of the round

module _ {D : Type 0} (ops : DbOps D) (js : StringsJson) (rj : RecordsJson) (now : ℤ)
    (ext : Externals) (aj : AnchorJson) (el : Election) (oj : OpsJson) (times : IdTimes)
    (json_of : P → Option Str) (to_lower : Str → Str) (config : AnchorConfig) where
  -- The BTC-C that a round sends: when nobody has, and this core is elected.
  abbrev round_sent : BtcMonMsg → Str → AnchorState → Sent
  round_sent msg anchoring_core s =
      if str_eq msg.btc_head_root s.latest_btcc_tx
      then []
      else if (elect_validator_as_leader el (pos 1) (anchoring_core ∷ []) s config).0
      then (str "BTC-C", text_or_empty (aj.btc_mon_msg.encode (record msg { path = [] }))) ∷ []
      else []

  -- The loop until a BTC-C is found or the deadline is there, which comes after the last round.
  unfoldable pub confirm_rounds : BtcMonMsg → Str → List Round → Sent × Str
  unfolding elect_validator_as_leader get_btcc_for_btc_root
  confirm_rounds msg anchoring_core [] = ([], [])
  confirm_rounds msg anchoring_core (r ∷ rs) =
      let sent = round_sent msg anchoring_core r.state in
      let hash = get_btcc_for_btc_root r.after msg in
      let (more, later) = confirm_rounds msg anchoring_core rs in
      if str_eq hash [] then (sent ++ more, later) else (sent, hash)

  abbrev core_for_test : Str → Str
  core_for_test core_id = if str_eq config.election_mode (str "test") then [] else core_id

  -- ConfirmAnchor, which returns no error; `client` answers the first query
  unfoldable pub confirm_anchor : TmClient → List Round → BtcMonMsg → D → Run (D × Sent)
  unfolding get_anchoring_core confirm_rounds generate_head_state_object get_proof_ids_by_btc_tx_id
      generate_btc_batch
  confirm_anchor client rounds msg d =
      let core_id =
        core_for_test
          (get_anchoring_core client ext (str "BTC-A.BTCTX='" ++ (msg.btc_tx_id ++ str "'"))).0 in
      let (sent, hash) = confirm_rounds msg core_id rounds in
      let head = generate_head_state_object oj to_lower config.core_uri hash msg in
      generate_btc_batch oj times json_of config.bitcoin_network ops js rj now
        (get_proof_ids_by_btc_tx_id ops js rj msg.btc_tx_id d) head d
      >>= λ (d', e). returns (d', sent)
