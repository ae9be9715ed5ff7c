-- ===== src/Calendar/Sound.antt =====
-- The proofs that the trees hand out lead from each leaf to the root.
use chainpoint_core.Prelude.{
  ℕ, ◌+◌, Str, str, true, Option, none, some, List, [], ◌∷◌, ◌++◌, length, length-append,
  append_assoc, get_elem?, ◌≡◌, refl, ap, sym, subst, ◌∙◌, arith, leb, returns, Option-cases, inl,
  inr,
}
use chainpoint_core.Types.{Aggregation, CalProofData, BtcProofData}
use chainpoint_core.Strconv.Hex.{hex_encode, hex_decode, IsBytes, hex_decode-IsBytes}
use chainpoint_core.Types.{Tx, BtcAgg}
use chainpoint_core.Externals.{Externals}
use chainpoint_core.Util.Tx.{Error, decode_tx}
use chainpoint_core.Merkle.{MerkleOps, MerkleLaws, Each, climb}
use chainpoint_core.Merkle.Eval.{
  eval, lines_of, text_bytes, text_bytes-hex_encode, eval-lines_of, run_op-sha,
}
use chainpoint_core.Calendar.{
  cal_leaves, cal_proofs, generate_calendar_tree, ResultTx, firsts, btc_proofs, cal_leaf,
  kept_leaves, agg_of, tree_of, aggregate_anchor_tx,
}

-- The element after a prefix.
pub get_elem?-append :
    (pre : List Str) (x : Str) (rest : List Str) → get_elem? (pre ++ x ∷ rest) (length pre) ≡ some x
get_elem?-append [] x rest = refl
get_elem?-append (y ∷ pre) x rest = get_elem?-append pre x rest

pub text_bytes_good : (t : Str) → (hex_decode t).1 ≡ true → text_bytes t ≡ (hex_decode t).0
unfolding text_bytes
text_bytes_good t e = rw e refl

abbrev pub HasRoot : Aggregation → Type 0
HasRoot a = (hex_decode a.agg_root).1 ≡ true

-- Each aggregation has its proof, in order, which leads from its root to the given one.
abbrev pub AllProved : (Str → Str) → Str → List Aggregation → List CalProofData → Type 0
AllProved sha root [] [] = Unit {0}
AllProved sha root (a ∷ aggs) (p ∷ ps) =
    (p.agg_id ≡ a.agg_id)
    × (eval sha (text_bytes a.agg_root) p.proof ≡ root)
    × AllProved sha root aggs ps
AllProved sha root _ _ = ⊥

-- Each kept transaction has its proof, in order, which leads from its bytes to the given root.
abbrev pub AllAnchored : (Str → Str) → Str → List (Str × ResultTx) → List BtcProofData → Type 0
AllAnchored sha root [] [] = Unit {0}
AllAnchored sha root ((b, t) ∷ kept) (p ∷ ps) =
    (p.cal_id ≡ hex_encode t.hash) × (eval sha b p.proof ≡ root) × AllAnchored sha root kept ps
AllAnchored sha root _ _ = ⊥

pub cal_leaves-IsBytes :
    (aggs : List Aggregation) → Each HasRoot aggs → Each IsBytes (cal_leaves aggs)
unfolding cal_leaves
cal_leaves-IsBytes [] h = tt
cal_leaves-IsBytes (a ∷ aggs) (e, h) =
    rw e (hex_decode-IsBytes a.agg_root, cal_leaves-IsBytes aggs h)

cal_leaves-cons :
    (a : Aggregation) (aggs : List Aggregation)
    → HasRoot a
    → cal_leaves (a ∷ aggs) ≡ text_bytes a.agg_root ∷ cal_leaves aggs
unfolding cal_leaves
cal_leaves-cons a aggs e = rw (e, text_bytes_good a.agg_root e) refl

cal_leaf-IsBytes : (d : Tx × Option Error) (bytes : Str) → cal_leaf d ≡ some bytes → IsBytes bytes
cal_leaf-IsBytes (tx, some e) bytes h = cc
cal_leaf-IsBytes (tx, none) bytes h = ground (arith, hex_decode-IsBytes tx.tx_data)

module _ (ext : Externals) where
  pub kept_leaves-IsBytes : (ts : List ResultTx) → Each IsBytes (firsts (kept_leaves ext ts))
  unfolding kept_leaves
  kept_leaves-IsBytes [] = tt
  kept_leaves-IsBytes (t ∷ ts) = elim (Option-cases (cal_leaf (decode_tx ext t.tx))) [
    | inl e ↦ rw (kept_leaves, e) (kept_leaves-IsBytes ts)
    | inr (b, e) ↦
        rw (kept_leaves, e) (cal_leaf-IsBytes (decode_tx ext t.tx) b e, kept_leaves-IsBytes ts)
  ]

module _ (sha : Str → Str) (mt : MerkleOps) (laws : MerkleLaws sha mt) where
  -- The items of a leaf's proof compute the root from the leaf.
  pub proof_at :
      (leaves : List Str) (i : ℕ) (leaf : Str)
      → Each IsBytes leaves
      → get_elem? leaves i ≡ some leaf
      → eval sha leaf (lines_of (str "sha-256") (mt.get_proof leaves i)) ≡ mt.root leaves
  proof_at leaves i leaf b e =
      eval-lines_of sha (str "sha-256") leaf (mt.get_proof leaves i) (laws.proof_bytes leaves i b)
      ∙ ap (λ f. climb f leaf (mt.get_proof leaves i)) (run_op-sha sha)
      ∙ laws.proof_root leaves i leaf e

  proofs_after :
      (leaves pre : List Str) (i : ℕ) (aggs : List Aggregation)
      → Each HasRoot aggs
      → Each IsBytes leaves
      → pre ++ cal_leaves aggs ≡ leaves
      → length pre ≡ i
      → AllProved sha (mt.root leaves) aggs (cal_proofs mt leaves i aggs)
  unfolding cal_proofs
  proofs_after leaves pre i [] h b e l = tt
  proofs_after leaves pre i (a ∷ aggs) (g, h) b e l =
      let leaf = text_bytes a.agg_root in
      let e' : pre ++ leaf ∷ cal_leaves aggs ≡ leaves =
        ap (λ r. pre ++ r) (sym (cal_leaves-cons a aggs g)) ∙ e in
      let at : get_elem? leaves i ≡ some leaf =
        subst (λ x. get_elem? x i ≡ some leaf) e'
          (subst (λ n. get_elem? (pre ++ leaf ∷ cal_leaves aggs) n ≡ some leaf) l
            (get_elem?-append pre leaf (cal_leaves aggs))) in
      (
        refl,
        proof_at leaves i leaf b at,
        proofs_after leaves (pre ++ leaf ∷ []) (i + 1) aggs h b
            (append_assoc pre (leaf ∷ []) (cal_leaves aggs) ∙ e')
            (length-append pre (leaf ∷ []) ∙ omega arith),
      )

  -- When the root of every aggregation is a hexadecimal text, GenerateCalendarTree gives each
  -- aggregation, in order, a proof that computes the calendar root from the aggregation's root.
  pub generate_calendar_tree-AllProved :
      (aggs : List Aggregation)
      → Each HasRoot aggs
      → let tree = generate_calendar_tree mt aggs in
        AllProved sha (text_bytes tree.cal_root) aggs tree.proof_data
  unfolding generate_calendar_tree
  generate_calendar_tree-AllProved aggs h =
      let leaves = cal_leaves aggs in
      let b = cal_leaves-IsBytes aggs h in
      subst (λ r. AllProved sha r aggs (cal_proofs mt leaves 0 aggs))
        (sym (text_bytes-hex_encode (mt.root leaves) (laws.root_bytes leaves b)))
        (proofs_after leaves [] 0 aggs h b refl refl)

  pub btc_proofs_after :
      (leaves pre : List Str) (i : ℕ) (kept : List (Str × ResultTx))
      → Each IsBytes leaves
      → pre ++ firsts kept ≡ leaves
      → length pre ≡ i
      → AllAnchored sha (mt.root leaves) kept (btc_proofs mt leaves i kept)
  unfolding btc_proofs
  btc_proofs_after leaves pre i [] b e l = tt
  btc_proofs_after leaves pre i ((x, t) ∷ kept) b e l =
      let at : get_elem? leaves i ≡ some x =
        subst (λ y. get_elem? y i ≡ some x) e
          (subst (λ n. get_elem? (pre ++ x ∷ firsts kept) n ≡ some x) l
            (get_elem?-append pre x (firsts kept))) in
      (
        refl,
        proof_at leaves i x b at,
        btc_proofs_after leaves (pre ++ x ∷ []) (i + 1) kept b
            (append_assoc pre (x ∷ []) (firsts kept) ∙ e)
            (length-append pre (x ∷ []) ∙ omega arith),
      )

  tree_of-AllAnchored :
      (uuid_of : Str → Str) (kept : List (Str × ResultTx))
      → Each IsBytes (firsts kept)
      → leb 16 (length (mt.root (firsts kept))) ≡ true
      → (agg : BtcAgg) × (tree_of mt uuid_of kept ≡ returns agg)
        × (text_bytes agg.anchor_btc_agg_root ≡ mt.root (firsts kept))
        × AllAnchored sha (text_bytes agg.anchor_btc_agg_root) kept agg.proof_data
  unfolding tree_of
  tree_of-AllAnchored uuid_of kept b h =
      let root = mt.root (firsts kept) in
      let e = text_bytes-hex_encode root (laws.root_bytes (firsts kept) b) in
      (
        agg_of mt uuid_of kept,
        rw h refl,
        e,
        subst (λ r. AllAnchored sha r kept (btc_proofs mt (firsts kept) 0 kept)) (sym e)
            (btc_proofs_after (firsts kept) [] 0 kept b refl refl),
      )

  -- When the tree over the CALs among the given transactions has a root of at least 16 bytes,
  -- AggregateAnchorTx returns an aggregation whose root is the tree's, and which gives each of those
  -- CALs, in order, a proof that computes the root from the calendar root that the CAL carries.
  pub aggregate_anchor_tx-AllAnchored :
      (ext : Externals) (uuid_of : Str → Str) (t : ResultTx) (ts : List ResultTx)
      → let kept = kept_leaves ext (t ∷ ts) in
        leb 16 (length (mt.root (firsts kept))) ≡ true
        → (agg : BtcAgg) × (aggregate_anchor_tx mt ext uuid_of (t ∷ ts) ≡ returns agg)
          × (text_bytes agg.anchor_btc_agg_root ≡ mt.root (firsts kept))
          × AllAnchored sha (text_bytes agg.anchor_btc_agg_root) kept agg.proof_data
  unfolding aggregate_anchor_tx
  aggregate_anchor_tx-AllAnchored ext uuid_of t ts h =
      tree_of-AllAnchored uuid_of (kept_leaves ext (t ∷ ts)) (kept_leaves-IsBytes ext (t ∷ ts)) h
