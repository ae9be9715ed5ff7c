-- ===== src/Anchor/Batch.antt =====
-- anchor/bitcoin/bitcoinanchor.go: the last steps of an anchor: its confirmation, its reward, and the
-- proofs of its hashes.
use chainpoint_core.Prelude.{
  ℤ, pos, ltb_ℤ, Str, str, str_eq, Dict, lookup, lookup_or, insert, not, Option, none, some, List,
  [], ◌∷◌, if◌then◌else◌, Run, returns, panics, ◌>>=◌,
}
use chainpoint_core.Types.{
  AnchorState, AnchorConfig, AggState, CalStateObject, AnchorBtcAggState, AnchorBtcTxState,
  AnchorBtcHeadState, ProofState,
}
use chainpoint_core.LevelDb.{DbOps, StringsJson}
use chainpoint_core.LevelDb.KvStore.{StoreError}
use chainpoint_core.ProofDb.{
  ProofDbError, RecordsJson, bulk_insert_proofs, get_agg_state_objects_by_proof_ids,
  get_cal_state_objects_by_agg_ids, get_anchor_btc_agg_state_objects_by_cal_ids,
  get_btc_tx_state_object_by_btc_head_state,
}
use chainpoint_core.Calendar.{OpsJson}
use chainpoint_core.Proof.{
  P, Value, text, texts, objects, empty, get_field, IdTimes, add_chainpoint_header,
  add_calendar_branch, add_chain_branch, set_proof_type,
}
use chainpoint_core.Anchor.{AnchorError, LightningClient}

-- The maps of GenerateBtcBatch and GenerateCalBatch: the last state of a key counts.
unfoldable pub cals_by_agg : List CalStateObject → Dict CalStateObject → Dict CalStateObject
cals_by_agg [] m = m
cals_by_agg (c ∷ cs) m = cals_by_agg cs (insert c.agg_id c m)

unfoldable pub aggs_by_cal :
    List AnchorBtcAggState → Dict AnchorBtcAggState → Dict AnchorBtcAggState
aggs_by_cal [] m = m
aggs_by_cal (a ∷ as') m = aggs_by_cal as' (insert a.cal_id a m)

abbrev pub empty_cal_state : CalStateObject
empty_cal_state = record { agg_id = []; cal_id = []; cal_state = [] }

abbrev pub empty_anchor_agg : AnchorBtcAggState
empty_anchor_agg = record { cal_id = []; anchor_btc_agg_id = []; anchor_btc_agg_state = [] }

-- json.Marshal of a proof; `proof["proof_id"].(string)` panics on anything but a text.
abbrev pub proof_state_of : P → Str → Option Value → Run ProofState
proof_state_of p json none = panics
proof_state_of p json (some (text id)) = returns (record { proof_id = id; proof = json })
proof_state_of p json (some (texts ts)) = panics
proof_state_of p json (some (objects os)) = panics

abbrev pub proof_states_of : (P → Option Str) → P → Run (List ProofState) → Run (List ProofState)
proof_states_of json_of p rest = elim (json_of p) [
  | none ↦ rest
  | some json ↦ proof_state_of p json (get_field (str "proof_id") p) >>= λ state.
      rest >>= λ states. returns (state ∷ states)
]

module _ (oj : OpsJson) (times : IdTimes) (json_of : P → Option Str) (network : Str) where
  -- The header and the calendar branch of a hash's proof; their errors are only logged.
  unfoldable pub calendar_proof : AggState → Str → P
  unfolding add_chainpoint_header add_calendar_branch set_proof_type
  calendar_proof row cal_state =
      (add_calendar_branch oj
        (add_chainpoint_header times empty (str "https://w3id.org/chainpoint/v5") (str "Chainpoint")
          row.hash row.proof_id).0
        row cal_state (set_proof_type network (str "cal"))).0

  abbrev anchor_of_cal : Dict AnchorBtcAggState → Option CalStateObject → Option AnchorBtcAggState
  anchor_of_cal by_cal none = none
  anchor_of_cal by_cal (some cal) = lookup cal.cal_id by_cal

  -- The loop of GenerateBtcBatch: a hash with no calendar state or no anchor is skipped.
  unfoldable pub btc_proofs_of :
      Dict CalStateObject
      → Dict AnchorBtcAggState
      → AnchorBtcTxState
      → AnchorBtcHeadState
      → List AggState
      → Run (List ProofState)
  unfolding calendar_proof add_chain_branch
  btc_proofs_of by_agg by_cal tx_state head_state [] = returns []
  btc_proofs_of by_agg by_cal tx_state head_state (row ∷ rows) =
      let rest = btc_proofs_of by_agg by_cal tx_state head_state rows in
      let cal = lookup_or empty_cal_state row.agg_id by_agg in
      elim (anchor_of_cal by_cal (lookup row.agg_id by_agg)) [
        | none ↦ rest
        | some anchor ↦
            add_chain_branch oj (calendar_proof row cal.cal_state) anchor tx_state head_state
              (set_proof_type network (str "btc"))
            >>= λ (p, failed). proof_states_of json_of p rest
      ]

  -- The loop of GenerateCalBatch (abci/anchor.go)
  unfoldable pub cal_proofs_of : Dict CalStateObject → List AggState → Run (List ProofState)
  unfolding calendar_proof
  cal_proofs_of by_agg [] = returns []
  cal_proofs_of by_agg (row ∷ rows) =
      proof_states_of json_of
        (calendar_proof row (lookup_or empty_cal_state row.agg_id by_agg).cal_state)
        (cal_proofs_of by_agg rows)

  module _ {D : Type 0} (ops : DbOps D) (js : StringsJson) (rj : RecordsJson) (now : ℤ) where
    abbrev inserted : D × Option ProofDbError → D × Option AnchorError
    inserted (d, none) = (d, none)
    inserted (d, some e) = (d, some (AnchorError.proofs e))

    -- GenerateCalBatch (abci/anchor.go)
    unfoldable pub generate_cal_batch :
        List AggState → List CalStateObject → D → Run (D × Option AnchorError)
    unfolding cal_proofs_of cals_by_agg bulk_insert_proofs
    generate_cal_batch agg_states cal_states d =
        cal_proofs_of (cals_by_agg cal_states []) agg_states >>= λ proofs.
        returns (inserted (bulk_insert_proofs ops js rj now proofs d))

    unfoldable pub agg_ids_of : List AggState → List Str
    agg_ids_of [] = []
    agg_ids_of (a ∷ as') = a.agg_id ∷ agg_ids_of as'

    unfoldable pub cal_ids_of : List CalStateObject → List Str
    cal_ids_of [] = []
    cal_ids_of (c ∷ cs) = c.cal_id ∷ cal_ids_of cs

    abbrev failed_with : D → AnchorError → Run (D × Option AnchorError)
    failed_with d e = returns (d, some e)

    abbrev with_tx :
        List AggState
        → List CalStateObject
        → List AnchorBtcAggState
        → AnchorBtcHeadState
        → D
        → AnchorBtcTxState × Option ProofDbError
        → Run (D × Option AnchorError)
    with_tx aggs cals anchors head d (tx, some e) = failed_with d (AnchorError.proofs e)
    with_tx aggs cals anchors head d (tx, none) =
        if str_eq tx.btc_tx_id []
        then failed_with d AnchorError.no_tx_state
        else btc_proofs_of (cals_by_agg cals []) (aggs_by_cal anchors []) tx head aggs >>= λ proofs.
            returns (inserted (bulk_insert_proofs ops js rj now proofs d))

    abbrev with_anchors :
        List AggState
        → List CalStateObject
        → AnchorBtcHeadState
        → D
        → List AnchorBtcAggState × Option StoreError
        → Run (D × Option AnchorError)
    with_anchors aggs cals head d (anchors, some e) = failed_with d (AnchorError.store e)
    with_anchors aggs cals head d ([], none) = failed_with d AnchorError.no_agg_state
    with_anchors aggs cals head d (a ∷ anchors, none) =
        with_tx aggs cals (a ∷ anchors) head d
          (get_btc_tx_state_object_by_btc_head_state ops js rj head.btc_tx_id d)

    abbrev with_cals :
        List AggState
        → AnchorBtcHeadState
        → D
        → List CalStateObject × Option StoreError
        → Run (D × Option AnchorError)
    with_cals aggs head d (cals, some e) = failed_with d (AnchorError.store e)
    with_cals aggs head d (cals, none) =
        with_anchors aggs cals head d
          (get_anchor_btc_agg_state_objects_by_cal_ids ops js rj (cal_ids_of cals) d)

    abbrev with_aggs :
        AnchorBtcHeadState → D → List AggState × Option StoreError → Run (D × Option AnchorError)
    with_aggs head d (aggs, some e) = failed_with d (AnchorError.store e)
    with_aggs head d (aggs, none) =
        with_cals aggs head d (get_cal_state_objects_by_agg_ids ops js rj (agg_ids_of aggs) d)

    -- GenerateBtcBatch
    unfoldable pub generate_btc_batch :
        List Str → AnchorBtcHeadState → D → Run (D × Option AnchorError)
    unfolding btc_proofs_of cals_by_agg aggs_by_cal agg_ids_of cal_ids_of bulk_insert_proofs
        get_agg_state_objects_by_proof_ids get_cal_state_objects_by_agg_ids
        get_anchor_btc_agg_state_objects_by_cal_ids get_btc_tx_state_object_by_btc_head_state
    generate_btc_batch proof_ids head d =
        with_aggs head d (get_agg_state_objects_by_proof_ids ops js rj proof_ids d)

-- AnchorReward: the payment, if one is sent, and the error. `ip_of_uri` is lightning.GetIpFromUri, and
-- `address_of` the address in the status that the peer's API answers.
unfoldable pub anchor_reward :
    LightningClient
    → (Str → Str)
    → (Str → Str)
    → AnchorConfig
    → AnchorState
    → Str
    → Option (Str × ℤ) × Option AnchorError
anchor_reward ln ip_of_uri address_of config s core_id = elim (lookup core_id s.ln_uris) [
  | none ↦ (none, some AnchorError.not_rewarded)
  | some uri ↦
      let address = address_of (ip_of_uri uri.peer) in
      if not (ltb_ℤ (pos 0) config.anchor_reward)
      then (none, some AnchorError.not_rewarded)
      else if not s.chain_synced
      then (none, some AnchorError.not_rewarded)
      else if str_eq (ip_of_uri uri.peer) []
      then (none, some AnchorError.not_rewarded)
      else if str_eq address []
      then (none, some AnchorError.not_rewarded)
      else elim (ln.send_coins address config.anchor_reward) [
        | none ↦ (none, some AnchorError.send_failed)
        | some txid ↦ (some (address, config.anchor_reward), some AnchorError.not_rewarded)
      ]
]
