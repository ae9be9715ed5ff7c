-- ===== src/Abci/CalBatch.antt =====
-- abci/anchor.go: AnchorCalendar, which writes a calendar transaction over the aggregated hashes.
use chainpoint_core.Prelude.{
  ℕ, ◌==◌, ℤ, Str, str_eq, Option, none, some, List, [], ◌∷◌, ◌++◌, length, if◌then◌else◌, Run,
  returns, ◌>>=◌,
}
use chainpoint_core.Types.{AggState, Aggregation, CalAgg, AnchorConfig}
use chainpoint_core.Strconv.Hex.{hex_encode}
use chainpoint_core.LevelDb.{DbOps, StringsJson}
use chainpoint_core.LevelDb.KvStore.{set}
use chainpoint_core.ProofDb.{RecordsJson, bulk_insert_agg_state, bulk_insert_cal_state}
use chainpoint_core.Merkle.{MerkleOps}
use chainpoint_core.Calendar.{OpsJson, generate_calendar_tree, create_cal_state_message}
use chainpoint_core.Proof.{P, IdTimes}
use chainpoint_core.Anchor.Batch.{generate_cal_batch}

unfoldable pub states_of : List Aggregation → List AggState
states_of [] = []
states_of (a ∷ aggs) = a.agg_states ++ states_of aggs

-- The answer of BroadcastTxSync: the code and the hash of the transaction.
pub record Broadcast : Type 0 where
  pub code : ℕ
  pub hash : Str

module _ {D : Type 0} (ops : DbOps D) (js : StringsJson) (rj : RecordsJson) (now : ℤ)
    (mt : MerkleOps) (oj : OpsJson) (times : IdTimes) (json_of : P → Option Str)
    (config : AnchorConfig) where
  -- The inserts of the aggregations' states, whose errors are only logged.
  unfoldable pub insert_all : List Aggregation → D → D
  unfolding bulk_insert_agg_state
  insert_all [] d = d
  insert_all (a ∷ aggs) d = insert_all aggs (bulk_insert_agg_state ops js rj now a.agg_states d).0

  -- What follows a calendar transaction that was accepted.
  unfoldable pub calendar_done : List Aggregation → CalAgg → Str → D → Run D
  unfolding states_of create_cal_state_message generate_cal_batch bulk_insert_cal_state
  calendar_done aggs tree hash d =
      let cal_states = create_cal_state_message oj config.core_uri hash tree in
      generate_cal_batch oj times json_of config.bitcoin_network ops js rj now (states_of aggs)
        cal_states (bulk_insert_cal_state ops js rj now cal_states d).0
      >>= λ (d', e). returns (set ops d' (hex_encode hash) tree.cal_root).0

  abbrev pub broadcast_done : List Aggregation → CalAgg → D → Option Broadcast → Run (D × Option ℕ)
  broadcast_done aggs tree d none = returns (d, none)
  broadcast_done aggs tree d (some b) =
      if b.code == 0
      then (calendar_done aggs tree b.hash d >>= λ d'. returns (d', some (length aggs)))
      else returns (d, none)

  -- AnchorCalendar on the aggregations that AggregateAndReset returns: the number of them, or no
  -- number on an error. `broadcast` is BroadcastTx of a CAL with this root.
  unfoldable pub anchor_calendar :
      (Str → Option Broadcast) → List Aggregation → D → Run (D × Option ℕ)
  unfolding insert_all calendar_done generate_calendar_tree
  anchor_calendar broadcast aggs d =
      let d' = insert_all aggs d in
      let tree = generate_calendar_tree mt aggs in
      if str_eq tree.cal_root []
      then returns (d', none)
      else broadcast_done aggs tree d' (broadcast tree.cal_root)
