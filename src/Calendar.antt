-- ===== src/Calendar.antt =====
-- calendar/calendar.go: the trees of the calendar and of an anchor, and the states of proofs.
pub mod Sound
pub mod Spends
use chainpoint_core.Prelude.{
  ℕ, suc, ◌+◌, Str, str, str_eq, Bool, Option, none, some, List, [], ◌∷◌, ◌++◌, take, drop, length,
  has_prefix, if◌then◌else◌, Run, returns, panics, leb,
}
use chainpoint_core.Types.{
  Aggregation, CalAgg, CalProofData, CalStateObject, AnchorOpsState, OpsState, BtcAgg, BtcProofData,
  BtcTxMsg, BtcMonMsg, JsProof, AnchorBtcAggState, AnchorBtcTxState, AnchorBtcHeadState,
  ProofLineItem, Tx,
}
use chainpoint_core.Externals.{Externals}
use chainpoint_core.Strconv.{format_int}
use chainpoint_core.Strconv.Hex.{hex_encode, hex_decode}
use chainpoint_core.Util.Tx.{Error, decode_tx}
use chainpoint_core.Merkle.{MerkleOps}
use chainpoint_core.Merkle.Eval.{left_item, right_item, op_item, lines_of}

-- A decoder returns the value filled so far, and whether there was an error.
pub record OpsJson : Type 0 where
  pub encode : OpsState → Option Str
  pub decode : Str → OpsState × Bool
  pub encode_anchor : AnchorOpsState → Option Str
  pub decode_anchor : Str → AnchorOpsState × Bool

-- The leaves of GenerateCalendarTree: a root that is no hexadecimal text is skipped.
unfoldable pub cal_leaves : List Aggregation → List Str
cal_leaves [] = []
cal_leaves (a ∷ aggs) =
    let rest = cal_leaves aggs in
    let (bytes, good) = hex_decode a.agg_root in if good then bytes ∷ rest else rest

-- A result of Tendermint's transaction search: what the code reads of it.
pub record ResultTx : Type 0 where
  pub hash : Str
  pub tx : Str
  pub events : List (List (Str × Str))

module _ (mt : MerkleOps) where
  -- The loop over the aggregations, from the index `i` on.
  unfoldable pub cal_proofs : List Str → ℕ → List Aggregation → List CalProofData
  unfolding lines_of
  cal_proofs leaves i [] = []
  cal_proofs leaves i (a ∷ aggs) =
      record { agg_id = a.agg_id; proof = lines_of (str "sha-256") (mt.get_proof leaves i) }
      ∷ cal_proofs leaves (i + 1) aggs

  -- GenerateCalendarTree
  unfoldable pub generate_calendar_tree : List Aggregation → CalAgg
  unfolding cal_leaves cal_proofs
  generate_calendar_tree aggs =
      let leaves = cal_leaves aggs in
      record { cal_root = hex_encode (mt.root leaves); proof_data = cal_proofs leaves 0 aggs }

-- The uri of the data of a calendar transaction.
abbrev pub cal_uri : Str → Str → Str
cal_uri base hash = base ++ (str "/calendar/" ++ (hash ++ str "/data"))

module _ (js : OpsJson) where
  -- The state of one aggregation; JSON that fails skips it.
  abbrev pub cal_state : Str → Str → CalProofData → Option Str
  cal_state base_uri hash ops = js.encode_anchor (record {
    ops = ops.proof;
    anchor = record { anchor_id = hash; uris = cal_uri base_uri hash ∷ [] };
  })

  unfoldable pub cal_states : Str → Str → List CalProofData → List CalStateObject
  cal_states base_uri hash [] = []
  cal_states base_uri hash (ops ∷ rest) =
      let more = cal_states base_uri hash rest in
      elim (cal_state base_uri hash ops) [
        | none ↦ more
        | some text ↦ record { agg_id = ops.agg_id; cal_id = hash; cal_state = text } ∷ more
      ]

  -- CreateCalStateMessage; `tx_hash` are the bytes of the transaction's hash
  unfoldable pub create_cal_state_message : Str → Str → CalAgg → List CalStateObject
  unfolding cal_states
  create_cal_state_message base_uri tx_hash tree =
      cal_states base_uri (hex_encode tx_hash) tree.proof_data

  unfoldable pub btca_states : Str → List BtcProofData → List AnchorBtcAggState
  btca_states agg_id [] = []
  btca_states agg_id (p ∷ ps) =
      let more = btca_states agg_id ps in
      elim (js.encode (record { ops = p.proof })) [
        | none ↦ more
        | some text ↦
            record { cal_id = p.cal_id; anchor_btc_agg_id = agg_id; anchor_btc_agg_state = text }
            ∷ more
      ]

  -- PrepareBtcaStateData
  unfoldable pub prepare_btca_state_data : BtcAgg → List AnchorBtcAggState
  unfolding btca_states
  prepare_btca_state_data anchor = btca_states anchor.anchor_btc_agg_id anchor.proof_data

-- The pairs of CAL bytes and transactions that AggregateAnchorTx keeps.
abbrev pub cal_leaf : Tx × Option Error → Option Str
cal_leaf (tx, some e) = none
cal_leaf (tx, none) =
    if str_eq tx.tx_type (str "CAL")
    then (let (bytes, good) = hex_decode tx.tx_data in if good then some bytes else none)
    else none

abbrev pub empty_btc_agg : BtcAgg
empty_btc_agg = record { anchor_btc_agg_id = []; anchor_btc_agg_root = []; proof_data = [] }

module _ (ext : Externals) where
  unfoldable pub kept_leaves : List ResultTx → List (Str × ResultTx)
  kept_leaves [] = []
  kept_leaves (t ∷ ts) =
      let rest = kept_leaves ts in
      elim (cal_leaf (decode_tx ext t.tx)) [ none ↦ rest | some bytes ↦ (bytes, t) ∷ rest ]

abbrev pub firsts : List (Str × ResultTx) → List Str
firsts [] = []
firsts ((b, t) ∷ rest) = b ∷ firsts rest

module _ (mt : MerkleOps) where
  unfoldable pub btc_proofs : List Str → ℕ → List (Str × ResultTx) → List BtcProofData
  unfolding lines_of
  btc_proofs leaves i [] = []
  btc_proofs leaves i ((b, t) ∷ rest) =
      record {
        cal_id = hex_encode t.hash;
        proof = lines_of (str "sha-256") (mt.get_proof leaves i);
      }
      ∷ btc_proofs leaves (i + 1) rest

  abbrev pub agg_of : (Str → Str) → List (Str × ResultTx) → BtcAgg
  agg_of uuid_of kept =
      let leaves = firsts kept in
      let root = mt.root leaves in
      record {
        anchor_btc_agg_id = uuid_of (take 16 root);
        anchor_btc_agg_root = hex_encode root;
        proof_data = btc_proofs leaves 0 kept;
      }

  -- `tree.Root[0:16]` panics on the tree of no leaves. `uuid_of` is the text of the UUID of 16 bytes.
  unfoldable pub tree_of : (Str → Str) → List (Str × ResultTx) → Run BtcAgg
  unfolding btc_proofs
  tree_of uuid_of kept =
      if leb 16 (length (mt.root (firsts kept))) then returns (agg_of uuid_of kept) else panics

  -- AggregateAnchorTx
  unfoldable pub aggregate_anchor_tx : Externals → (Str → Str) → List ResultTx → Run BtcAgg
  unfolding tree_of kept_leaves
  aggregate_anchor_tx ext uuid_of [] = returns empty_btc_agg
  aggregate_anchor_tx ext uuid_of (t ∷ ts) = tree_of uuid_of (kept_leaves ext (t ∷ ts))

-- The items of GenerateHeadStateObject for one step of the path to the block's root.
abbrev pub side_items : Str → Str → List ProofLineItem → List ProofLineItem
side_items left right rest =
    let more = if str_eq right [] then rest else right_item right ∷ rest in
    if str_eq left [] then more else left_item left ∷ more

unfoldable pub head_items : List JsProof → List ProofLineItem
head_items [] = []
head_items (p ∷ ps) = side_items p.left p.right (op_item (str "sha-256-x2") ∷ head_items ps)

-- `text[:strings.Index(text, sub)]`, and `strings.Index` itself; -1 is `none`.
unfoldable pub text_index : Str → Str → Option ℕ
unfolding has_prefix
text_index [] sub = if has_prefix [] sub then some 0 else none
text_index (x ∷ xs) sub =
    let rest = text_index xs sub in
    if has_prefix (x ∷ xs) sub then some 0 else elim rest [ none ↦ none | some i ↦ some (suc i) ]

module _ (js : OpsJson) where
  abbrev pub text_or_empty : Option Str → Str
  text_or_empty none = []
  text_or_empty (some t) = t

  -- GenerateHeadStateObject; `to_lower` is strings.ToLower
  unfoldable pub generate_head_state_object :
      (Str → Str) → Str → Str → BtcMonMsg → AnchorBtcHeadState
  unfolding head_items
  generate_head_state_object to_lower uri hash mon = record {
    btc_tx_id = mon.btc_tx_id;
    btc_head_height = mon.btc_head_height;
    btc_head_state = text_or_empty (
        js.encode_anchor (record {
          ops = head_items mon.path;
          anchor = record {
            anchor_id = format_int mon.btc_head_height;
            uris = to_lower (cal_uri uri (hex_encode hash)) ∷ [];
          };
        }));
  }

  abbrev pub btc_tx_ops : Str → Str → List ProofLineItem
  btc_tx_ops left right = left_item left ∷ right_item right ∷ op_item (str "sha-256-x2") ∷ []

  abbrev split_body : BtcTxMsg → Option ℕ → Run AnchorBtcTxState
  split_body msg none = panics
  split_body msg (some i) = returns (record {
    anchor_btc_agg_id = msg.anchor_btc_agg_id;
    btc_tx_id = msg.btc_tx_id;
    btc_tx_state = text_or_empty (
        js.encode (record {
          ops =
              btc_tx_ops (take i msg.btc_tx_body)
                (drop (i + length msg.anchor_btc_agg_root) msg.btc_tx_body);
        }));
  })

  -- GenerateAnchorBtcTxState; a body without the root panics.
  unfoldable pub generate_anchor_btc_tx_state : BtcTxMsg → Run AnchorBtcTxState
  unfolding text_index
  generate_anchor_btc_tx_state msg =
      split_body msg (text_index msg.btc_tx_body msg.anchor_btc_agg_root)
