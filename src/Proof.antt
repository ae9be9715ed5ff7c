-- ===== src/Proof.antt =====
-- proof/proof.go: a Chainpoint proof as a JSON object, and the operations that add to it.
pub mod Sound
use chainpoint_core.Prelude.{
  ℤ, pos, Str, str, str_eq, Bool, true, false, Option, none, some, List, [], ◌∷◌, ◌++◌,
  if◌then◌else◌, Run, returns, panics,
}
use chainpoint_core.Types.{
  AggState, AnchorObj, AnchorBtcAggState, AnchorBtcTxState, AnchorBtcHeadState, ProofLineItem,
}
use chainpoint_core.Calendar.{OpsJson}
use chainpoint_core.Util.Ids.{is_uuid, is_ulid}

-- The map P, the slices []P, and the values that the code puts into a map.
mutual
  pub data Value : Type 0 where
    text : Str → Value
    texts : List Str → Value
    objects : Objects → Value

  pub data P : Type 0 where
    empty : P
    field : Str → Value → P → P

  pub data Objects : Type 0 where
    nil : Objects
    cons : P → Objects → Objects

-- `p[key] = value` and `p[key]`
unfoldable pub put_field : Str → Value → P → P
put_field key v empty = field key v empty
put_field key v (field k w p) =
    let rest = put_field key v p in if str_eq k key then field k v p else field k w rest

unfoldable pub get_field : Str → P → Option Value
get_field key empty = none
get_field key (field k w p) = let rest = get_field key p in if str_eq k key then some w else rest

-- append
unfoldable pub append_objects : Objects → Objects → Objects
append_objects nil b = b
append_objects (cons p a) b = cons p (append_objects a b)

abbrev pub single : P → Objects
single p = cons p nil

-- `m[key] = text`, when the text is not empty
abbrev pub put_text : Str → Str → P → P
put_text key t p = if str_eq t [] then p else put_field key (text t) p

-- The objects of one item: its sides, if it has one, and its operation.
abbrev pub left_or_right : ProofLineItem → P
left_or_right op = put_text (str "r") op.right (put_text (str "l") op.left empty)

abbrev pub operation : ProofLineItem → P
operation op = put_text (str "op") op.op empty

abbrev pub cons_object : P → Objects → Objects
cons_object empty rest = rest
cons_object (field k v p) rest = cons (field k v p) rest

-- ConvertGoOpsToJsonMap
unfoldable pub convert_go_ops_to_json_map : List ProofLineItem → Objects
unfolding put_field
convert_go_ops_to_json_map [] = nil
convert_go_ops_to_json_map (op ∷ ops) =
    cons_object (left_or_right op) (cons_object (operation op) (convert_go_ops_to_json_map ops))

-- The end of a branch: where its root is anchored.
abbrev pub anchor_of : Str → AnchorObj → P
anchor_of proof_type a =
    field (str "type") (text proof_type)
      (field (str "anchor_id") (text a.anchor_id) (field (str "uris") (texts a.uris) empty))

abbrev pub anchor_op : Str → AnchorObj → P
anchor_op proof_type a = field (str "anchors") (objects (single (anchor_of proof_type a))) empty

unfoldable pub branch_of : Str → List ProofLineItem → Str → AnchorObj → P
unfolding append_objects convert_go_ops_to_json_map
branch_of label ops proof_type a = field (str "label") (text label) (
    field (str "ops")
      (objects (append_objects (convert_go_ops_to_json_map ops) (single (anchor_op proof_type a))))
      empty)

module _ (js : OpsJson) where
  -- AddCalendarBranch; true is the error, which leaves the proof as it was.
  unfoldable pub add_calendar_branch : P → AggState → Str → Str → P × Bool
  unfolding branch_of put_field
  add_calendar_branch proof agg_state cal_state proof_type =
      let (agg_ops, agg_failed) = js.decode agg_state.agg_state in
      let (cal_ops, cal_failed) = js.decode_anchor cal_state in
      if agg_failed then (proof, true) else if cal_failed then (proof, true) else (
        put_field (str "branches")
            (objects (
              single (
                branch_of (str "cal_anchor_branch") (agg_ops.ops ++ cal_ops.ops) proof_type
                  cal_ops.anchor)))
            proof,
        false,
      )

  -- The new branch goes under the first branch, if there is one; a `branches` that is no []P panics.
  unfoldable pub attach : P → P → Run P
  unfolding put_field get_field
  attach branch proof = elim (get_field (str "branches") proof) [
    | none ↦ returns (put_field (str "branches") (objects (single branch)) proof)
    | some v ↦ attach_at branch proof v
  ]
    where
      attach_at : P → P → Value → Run P
      attach_at branch proof (text t) = panics
      attach_at branch proof (texts t) = panics
      attach_at branch proof (objects nil) =
          returns (put_field (str "branches") (objects (single branch)) proof)
      attach_at branch proof (objects (cons first rest)) = returns (
          put_field (str "branches")
            (objects (cons (put_field (str "branches") (objects (single branch)) first) rest))
            proof)

  abbrev pub attached : Run P → Run (P × Bool)
  attached panics = panics
  attached (returns p) = returns (p, false)

  -- AddChainBranch
  unfoldable pub add_chain_branch :
      P → AnchorBtcAggState → AnchorBtcTxState → AnchorBtcHeadState → Str → Run (P × Bool)
  unfolding attach branch_of
  add_chain_branch proof btc_agg_state btc_tx_state btc_head_state proof_type =
      let (agg, agg_failed) = js.decode btc_agg_state.anchor_btc_agg_state in
      let (tx, tx_failed) = js.decode btc_tx_state.btc_tx_state in
      let (head, head_failed) = js.decode_anchor btc_head_state.btc_head_state in
      if agg_failed
      then returns (proof, true)
      else if tx_failed
      then returns (proof, true)
      else if head_failed
      then returns (proof, true)
      else attached (
          attach
            (branch_of (str "btc_anchor_branch") ((agg.ops ++ tx.ops) ++ head.ops) proof_type
              head.anchor)
            proof)

-- SetProofType
unfoldable pub set_proof_type : Str → Str → Str
set_proof_type network chain_type =
    if str_eq network (str "testnet") then str "t" ++ chain_type else chain_type

-- google/uuid and oklog/ulid, with package time: the Unix seconds of an id, and a time as text.
pub record IdTimes : Type 0 where
  pub uuid_seconds : Str → Option ℤ
  pub ulid_seconds : Str → Option ℤ
  pub rfc3339 : ℤ → Str

-- AddChainpointHeader; true is the error.
unfoldable pub add_chainpoint_header : IdTimes → P → Str → Str → Str → Str → P × Bool
unfolding put_field
add_chainpoint_header times proof context json_type hash proof_id =
    let headed = put_field (str "proof_id") (text proof_id) (
      put_field (str "hash") (text hash) (
        put_field (str "type") (text json_type)
          (put_field (str "@context") (text context) proof))) in
    let seconds =
      if is_uuid proof_id
      then times.uuid_seconds proof_id
      else if is_ulid proof_id
      then times.ulid_seconds proof_id
      else some (pos 0) in
    elim seconds [
      | none ↦ (headed, true)
      | some s ↦ (put_field (str "hash_received") (text (times.rfc3339 s)) headed, false)
    ]
