-- ===== src/Proof/Sound.antt =====
-- What the branches of a proof compute, read by an independent evaluation of the JSON objects.
use chainpoint_core.Prelude.{
  Str, str, str_eq, str_eq_iff, false, Option, none, some, List, [], ◌∷◌, ◌++◌, append-nil, ◌≡◌,
  refl, ap, sym, ◌∙◌, arith, if◌then◌else◌, returns,
}
use chainpoint_core.Types.{
  AggState, AnchorObj, AnchorBtcAggState, AnchorBtcTxState, AnchorBtcHeadState, ProofLineItem,
}
use chainpoint_core.Merkle.Eval.{text_bytes, text_bytes-nil, run_op, eval, eval_item, eval-append}
use chainpoint_core.Calendar.{OpsJson}
use chainpoint_core.Proof.{
  Value, text, texts, objects, P, empty, field, Objects, nil, cons, put_field, get_field,
  append_objects, single, convert_go_ops_to_json_map, anchor_op, branch_of, add_calendar_branch,
  attach, add_chain_branch, left_or_right, operation, cons_object,
}

-- The text of a key, empty when the object has none.
abbrev pub text_of : Option Value → Str
text_of none = []
text_of (some (text t)) = t
text_of (some (texts ts)) = []
text_of (some (objects os)) = []

-- An object of the operations: bytes put on the left, bytes put on the right, a hash.
unfoldable pub eval_object : (Str → Str) → Str → P → Str
unfolding get_field run_op text_bytes
eval_object sha acc p = run_op sha (text_of (get_field (str "op") p)) (
    text_bytes (text_of (get_field (str "l") p))
    ++ (acc ++ text_bytes (text_of (get_field (str "r") p))))

unfoldable pub eval_objects : (Str → Str) → Str → Objects → Str
unfolding eval_object
eval_objects sha acc nil = acc
eval_objects sha acc (cons p ps) = eval_objects sha (eval_object sha acc p) ps

-- A branch computes what its operations do.
abbrev pub ops_of_value : Option Value → Objects
ops_of_value (some (objects os)) = os
ops_of_value _ = nil

unfoldable pub eval_branch : (Str → Str) → Str → P → Str
unfolding eval_objects get_field
eval_branch sha acc branch = eval_objects sha acc (ops_of_value (get_field (str "ops") branch))

module _ (sha : Str → Str) where
  eval_objects-append :
      (acc : Str) (a b : Objects)
      → eval_objects sha acc (append_objects a b) ≡ eval_objects sha (eval_objects sha acc a) b
  unfolding eval_objects append_objects
  eval_objects-append acc nil b = refl
  eval_objects-append acc (cons p a) b = eval_objects-append (eval_object sha acc p) a b

  no_bytes : (acc : Str) → text_bytes [] ++ (acc ++ text_bytes []) ≡ acc
  no_bytes acc = rw text_bytes-nil (append-nil acc)

  item_objects :
      (acc l r o : Str) (rest : Objects)
      → let op : ProofLineItem = record { left = l; right = r; op = o } in
        eval_objects sha acc (cons_object (left_or_right op) (cons_object (operation op) rest))
        ≡ eval_objects sha (eval_item sha acc op) rest
  unfolding eval_objects eval_object eval_item get_field put_field str_eq run_op
  item_objects acc [] [] [] rest = ap (λ x. eval_objects sha x rest) (sym (no_bytes acc))
  item_objects acc [] [] (c ∷ o) rest = refl
  item_objects acc [] (b ∷ r) [] rest = refl
  item_objects acc [] (b ∷ r) (c ∷ o) rest =
      ap (λ x. eval_objects sha (run_op sha (c ∷ o) x) rest) (append-nil _)
  item_objects acc (a ∷ l) [] [] rest = refl
  item_objects acc (a ∷ l) [] (c ∷ o) rest =
      ap (λ x. eval_objects sha (run_op sha (c ∷ o) x) rest) (append-nil _)
  item_objects acc (a ∷ l) (b ∷ r) [] rest = refl
  item_objects acc (a ∷ l) (b ∷ r) (c ∷ o) rest =
      ap (λ x. eval_objects sha (run_op sha (c ∷ o) x) rest) (append-nil _)

  -- ConvertGoOpsToJsonMap keeps the meaning of every list of items: the objects compute from any bytes
  -- what the items do, whichever of an item's texts are empty.
  pub eval_objects-convert :
      (acc : Str) (ops : List ProofLineItem)
      → eval_objects sha acc (convert_go_ops_to_json_map ops) ≡ eval sha acc ops
  unfolding eval_objects convert_go_ops_to_json_map eval
  eval_objects-convert acc [] = refl
  eval_objects-convert acc (op ∷ ops) =
      item_objects acc op.left op.right op.op (convert_go_ops_to_json_map ops)
      ∙ eval_objects-convert (eval_item sha acc op) ops

  anchor_object :
      (acc proof_type : Str) (a : AnchorObj) → eval_object sha acc (anchor_op proof_type a) ≡ acc
  unfolding eval_object get_field str_eq run_op
  anchor_object acc proof_type a = no_bytes acc

  pub eval_branch-branch_of :
      (acc label : Str) (ops : List ProofLineItem) (proof_type : Str) (a : AnchorObj)
      → eval_branch sha acc (branch_of label ops proof_type a) ≡ eval sha acc ops
  unfolding eval_branch branch_of get_field str_eq eval_objects
  eval_branch-branch_of acc label ops proof_type a =
      eval_objects-append acc (convert_go_ops_to_json_map ops) (single (anchor_op proof_type a))
      ∙ anchor_object (eval_objects sha acc (convert_go_ops_to_json_map ops)) proof_type a
      ∙ eval_objects-convert acc ops

pub get_field-put_field :
    (key k : Str) (v : Value) (p : P)
    → get_field k (put_field key v p) ≡ (if str_eq key k then some v else get_field k p)
unfolding get_field put_field
get_field-put_field key k v empty = refl
get_field-put_field key k v (field j w p) =
    ground
      (arith, str_eq_iff key k, str_eq_iff j key, str_eq_iff j k, get_field-put_field key k v p)

module _ (sha : Str → Str) (js : OpsJson) where
  abbrev calendar_branch : AggState → Str → Str → P
  calendar_branch agg_state cal_state proof_type =
      let cal = (js.decode_anchor cal_state).0 in
      branch_of (str "cal_anchor_branch") ((js.decode agg_state.agg_state).0.ops ++ cal.ops)
        proof_type cal.anchor

  calendar_step :
      (proof : P) (agg_state : AggState) (cal_state proof_type : Str)
      → (js.decode agg_state.agg_state).1 ≡ false
      → (js.decode_anchor cal_state).1 ≡ false
      → add_calendar_branch js proof agg_state cal_state proof_type ≡ (
        put_field
            (str "branches")
            (objects (single (calendar_branch agg_state cal_state proof_type)))
            proof,
        false,
      )
  unfolding add_calendar_branch
  calendar_step proof agg_state cal_state proof_type h1 h2 = rw (h1, h2) refl

  -- When both texts of operations can be read, AddCalendarBranch has no error, and puts into the
  -- proof one branch, which computes from any bytes what the operations of the aggregation's tree
  -- and then those of the calendar's compute; every other field of the proof stays as it was.
  pub add_calendar_branch-computes :
      (proof : P) (agg_state : AggState) (cal_state proof_type : Str)
      → (js.decode agg_state.agg_state).1 ≡ false
      → (js.decode_anchor cal_state).1 ≡ false
      → let (after, failed) = add_calendar_branch js proof agg_state cal_state proof_type in
        (failed ≡ false)
        × ((branch : P) × (get_field (str "branches") after ≡ some (objects (single branch)))
            × ((acc : Str)
                → eval_branch sha acc branch
                  ≡ eval sha
                      (eval sha acc (js.decode agg_state.agg_state).0.ops)
                      (js.decode_anchor cal_state).0.ops))
        × ((k : Str) → str_eq (str "branches") k ≡ false → get_field k after ≡ get_field k proof)
  unfolding str_eq
  add_calendar_branch-computes proof agg_state cal_state proof_type h1 h2 =
      let branch = calendar_branch agg_state cal_state proof_type in
      let v = objects (single branch) in
      rw (calendar_step proof agg_state cal_state proof_type h1 h2) (
        refl,
        (
          branch,
          get_field-put_field (str "branches") (str "branches") v proof,
          λ acc.
              eval_branch-branch_of sha acc (str "cal_anchor_branch")
                ((js.decode agg_state.agg_state).0.ops ++ (js.decode_anchor cal_state).0.ops)
                proof_type (js.decode_anchor cal_state).0.anchor
              ∙ eval-append sha acc (js.decode agg_state.agg_state).0.ops
                  (js.decode_anchor cal_state).0.ops,
        ),
        λ k e. get_field-put_field (str "branches") k v proof ∙ (rw e refl),
      )

  abbrev chain_branch : AnchorBtcAggState → AnchorBtcTxState → AnchorBtcHeadState → Str → P
  chain_branch agg_state tx_state head_state proof_type =
      let head = (js.decode_anchor head_state.btc_head_state).0 in
      branch_of (str "btc_anchor_branch")
        (((js.decode agg_state.anchor_btc_agg_state).0.ops
            ++ (js.decode tx_state.btc_tx_state).0.ops)
          ++ head.ops)
        proof_type head.anchor

  chain_step :
      (proof first : P) (rest : Objects) (agg_state : AnchorBtcAggState)
      (tx_state : AnchorBtcTxState) (head_state : AnchorBtcHeadState) (proof_type : Str)
      → get_field (str "branches") proof ≡ some (objects (cons first rest))
      → (js.decode agg_state.anchor_btc_agg_state).1 ≡ false
      → (js.decode tx_state.btc_tx_state).1 ≡ false
      → (js.decode_anchor head_state.btc_head_state).1 ≡ false
      → let branch = chain_branch agg_state tx_state head_state proof_type in
        let first' = put_field (str "branches") (objects (single branch)) first in
        add_chain_branch js proof agg_state tx_state head_state proof_type
        ≡ returns (put_field (str "branches") (objects (cons first' rest)) proof, false)
  unfolding add_chain_branch attach
  chain_step proof first rest agg_state tx_state head_state proof_type e h1 h2 h3 =
      rw (h1, h2, h3, attach, e) refl

  -- When the proof has a branch and the three texts of operations can be read, AddChainBranch has no
  -- error and puts one branch under the proof's first one, which computes from any bytes what the
  -- operations of the anchor's tree, of the transaction and of the block's header compute in turn;
  -- what the first branch computes does not change.
  pub add_chain_branch-computes :
      (proof first : P) (rest : Objects) (agg_state : AnchorBtcAggState)
      (tx_state : AnchorBtcTxState) (head_state : AnchorBtcHeadState) (proof_type : Str)
      → get_field (str "branches") proof ≡ some (objects (cons first rest))
      → (js.decode agg_state.anchor_btc_agg_state).1 ≡ false
      → (js.decode tx_state.btc_tx_state).1 ≡ false
      → (js.decode_anchor head_state.btc_head_state).1 ≡ false
      → (after : P) × (first' : P) × (branch : P) × (add_chain_branch js proof agg_state tx_state
            head_state proof_type
          ≡ returns (after, false))
        × (get_field (str "branches") after ≡ some (objects (cons first' rest)))
        × (get_field (str "branches") first' ≡ some (objects (single branch)))
        × ((acc : Str)
            → eval_branch sha acc branch
              ≡ eval sha
                  (eval sha
                    (eval sha acc (js.decode agg_state.anchor_btc_agg_state).0.ops)
                    (js.decode tx_state.btc_tx_state).0.ops)
                  (js.decode_anchor head_state.btc_head_state).0.ops)
        × ((acc : Str) → eval_branch sha acc first' ≡ eval_branch sha acc first)
  unfolding str_eq eval_branch
  add_chain_branch-computes proof first rest agg_state tx_state head_state proof_type e h1 h2 h3 =
      let branch = chain_branch agg_state tx_state head_state proof_type in
      let v = objects (single branch) in
      let first' = put_field (str "branches") v first in
      let a = (js.decode agg_state.anchor_btc_agg_state).0.ops in
      let t = (js.decode tx_state.btc_tx_state).0.ops in
      let h = (js.decode_anchor head_state.btc_head_state).0 in
      (
        put_field (str "branches") (objects (cons first' rest)) proof,
        first',
        branch,
        chain_step proof first rest agg_state tx_state head_state proof_type e h1 h2 h3,
        get_field-put_field (str "branches") (str "branches") (objects (cons first' rest)) proof,
        get_field-put_field (str "branches") (str "branches") v first,
        (λ acc.
            eval_branch-branch_of sha acc (str "btc_anchor_branch") ((a ++ t) ++ h.ops) proof_type
              h.anchor
            ∙ eval-append sha acc (a ++ t) h.ops
            ∙ ap (λ x. eval sha x h.ops) (eval-append sha acc a t)),
        λ acc.
            ap (λ o. eval_objects sha acc (ops_of_value o))
              (get_field-put_field (str "branches") (str "ops") v first),
      )
