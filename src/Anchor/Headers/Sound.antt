-- ===== src/Anchor/Headers/Sound.antt =====
-- The path of GenerateBtcHeaderProof leads from the transaction to the root of its block.
use chainpoint_core.Prelude.{
  ℕ, suc, ◌+◌, append-nil, Str, str, str_eq, str_eq_iff, Bool, true, false, Bool-cases, inl, inr,
  Option, none, some, List, [], ◌∷◌, ◌++◌, get_elem?, ◌≡◌, refl, ap, sym, subst, ◌∙◌, arith, ◌⊎◌,
  if◌then◌else◌,
}
use chainpoint_core.Types.{BtcMonMsg, ProofLineItem, TxId}
use chainpoint_core.Strconv.Hex.{
  hex_encode, hex_decode, hex_decode-hex_encode, hex_decode-IsBytes, IsBytes,
}
use chainpoint_core.Util.TxHex.{
  reverse_tx_hex, reverse_any, reverse_any_twice, reverse_any-IsBytes, reverse_tx_hex-hex_encode,
}
use chainpoint_core.Merkle.{MerkleOps, MerkleLaws, ProofStep, Each, climb, join}
use chainpoint_core.Merkle.Eval.{
  eval, eval_item, text_bytes-hex_encode, eval_item-left, eval_item-right, eval_item-op, left_item,
  right_item, op_item, run_op-sha_twice,
}
use chainpoint_core.Calendar.{side_items, head_items}
use chainpoint_core.Anchor.{BlockDetails, BlockAnswer, LightningClient, AnchorError}
use chainpoint_core.Anchor.Headers.{
  block_leaves, last_index, reversed_bytes, js_proof, js_proofs, tree_at, tree_in, get_block_tree,
  header_proof_of, generate_btc_header_proof,
}

-- Turning the bytes of two roots around hides no difference.
reversed_bytes_lem : (v : Str) → IsBytes v → reversed_bytes v ≡ reverse_any v
reversed_bytes_lem v h =
    ap (λ t. (hex_decode t).0) (reverse_tx_hex-hex_encode v h)
    ∙ ap (λ r. r.0) (hex_decode-hex_encode (reverse_any v) (reverse_any-IsBytes v h))

reversed_bytes-injective :
    (a b : Str) → IsBytes a → IsBytes b → reversed_bytes a ≡ reversed_bytes b → a ≡ b
reversed_bytes-injective a b h k e =
    sym (reverse_any_twice a)
    ∙ ap reverse_any (sym (reversed_bytes_lem a h) ∙ e ∙ reversed_bytes_lem b k)
    ∙ reverse_any_twice b

block_leaves-IsBytes : (ts : List Str) → Each IsBytes (block_leaves ts)
unfolding block_leaves
block_leaves-IsBytes [] = tt
block_leaves-IsBytes (t ∷ ts) = (hex_decode-IsBytes (reverse_tx_hex t), block_leaves-IsBytes ts)

-- The element at an index that is counted from `i`.
abbrev AtOffset : Str → ℕ → ℕ → List Str → Type 0
AtOffset txid i j ts =
    (k : ℕ) × (j ≡ i + k)
    × (get_elem? (block_leaves ts) k ≡ some (hex_decode (reverse_tx_hex txid)).0)

last_index_step :
    (o : Option ℕ) (b : Bool) (i j : ℕ)
    → elim o [ some m ↦ some m | none ↦ if b then some i else none ] ≡ some j
    → (o ≡ some j) ⊎ ((i ≡ j) × (b ≡ true))
last_index_step (some m) b i j e = inl e
last_index_step none true i j e = inr (cc, refl)
last_index_step none false i j e = cc

last_index_lem :
    (txid : Str) (i j : ℕ) (ts : List Str) → last_index txid i ts ≡ some j → AtOffset txid i j ts
unfolding last_index block_leaves
last_index_lem txid i j [] e = cc
last_index_lem txid i j (t ∷ ts) e =
    elim (last_index_step (last_index txid (i + 1) ts) (str_eq t txid) i j e) [
      | inl s ↦
          let (k, eq, at) = last_index_lem txid (i + 1) j ts s in
          let shifted : j ≡ i + suc k = omega arith in (suc k, shifted, at)
      | inr (same, found) ↦
          let here : j ≡ i + 0 = omega arith in
          (0, here, ap (λ x. some (hex_decode (reverse_tx_hex x)).0) ((str_eq_iff t txid).0 found))
    ]

module _ (sha : Str → Str) where
  twice : (acc : Str) → eval_item sha acc (op_item (str "sha-256-x2")) ≡ sha (sha acc)
  twice acc = eval_item-op sha acc (str "sha-256-x2") ∙ ap (λ f. f acc) (run_op-sha_twice sha)

  side_step :
      (left : Bool) (v acc : Str) (rest : List ProofLineItem)
      → IsBytes v
      → let p : ProofStep = record { left = left; value = v } in
        eval sha acc
          (side_items (js_proof p).left (js_proof p).right (op_item (str "sha-256-x2") ∷ rest))
        ≡ eval sha (join (λ s. sha (sha s)) acc p) rest
  unfolding eval str_eq hex_encode
  side_step true [] acc rest h = ap (λ x. eval sha x rest) (twice acc)
  side_step false [] acc rest h =
      ap (λ x. eval sha x rest) (twice acc ∙ ap (λ x. sha (sha x)) (sym (append-nil acc)))
  side_step true (c ∷ v) acc rest h =
      ap (λ x. eval sha x rest)
        (twice (eval_item sha acc (left_item (hex_encode (c ∷ v))))
          ∙ ap (λ x. sha (sha x))
              (eval_item-left sha acc (hex_encode (c ∷ v))
                ∙ ap (λ x. x ++ acc) (text_bytes-hex_encode (c ∷ v) h)))
  side_step false (c ∷ v) acc rest h =
      ap (λ x. eval sha x rest)
        (twice (eval_item sha acc (right_item (hex_encode (c ∷ v))))
          ∙ ap (λ x. sha (sha x))
              (eval_item-right sha acc (hex_encode (c ∷ v))
                ∙ ap (λ x. acc ++ x) (text_bytes-hex_encode (c ∷ v) h)))

  head_items-climb :
      (acc : Str) (ps : List ProofStep)
      → Each (λ p. IsBytes p.value) ps
      → eval sha acc (head_items (js_proofs ps)) ≡ climb (λ s. sha (sha s)) acc ps
  unfolding eval head_items js_proofs
  head_items-climb acc [] h = refl
  head_items-climb acc (p ∷ ps) (h, hs) =
      side_step p.left p.value acc (head_items (js_proofs ps)) h
      ∙ head_items-climb (join (λ s. sha (sha s)) acc p) ps hs

  module _ (mt : MerkleOps) (laws : MerkleLaws sha mt) (ln : LightningClient) where
    root_same :
        (b : BlockDetails)
        → IsBytes b.merkle_root
        → str_eq
            (reversed_bytes (mt.btc_root (block_leaves b.transactions)))
            (reversed_bytes b.merkle_root)
          ≡ true
        → mt.btc_root (block_leaves b.transactions) ≡ b.merkle_root
    root_same b h t =
        let leaves = block_leaves b.transactions in
        reversed_bytes-injective (mt.btc_root leaves) b.merkle_root
          (laws.btc_root_bytes leaves (block_leaves-IsBytes b.transactions)) h
          ((str_eq_iff (reversed_bytes (mt.btc_root leaves)) (reversed_bytes b.merkle_root)).0 t)

    path_computes :
        (tx : TxId) (b : BlockDetails) (o : Option ℕ)
        → last_index tx.tx_id 0 b.transactions ≡ o
        → IsBytes b.merkle_root
        → (header_proof_of mt ln tx (tree_at mt ln b o)).1 ≡ none
        → eval sha
            (hex_decode (reverse_tx_hex tx.tx_id)).0
            (head_items (header_proof_of mt ln tx (tree_at mt ln b o)).0.path)
          ≡ b.merkle_root
    path_computes tx b none l h e = cc
    path_computes tx b (some i) l h e =
        let leaves = block_leaves b.transactions in
        let (k, same, at) = last_index_lem tx.tx_id 0 i b.transactions l in
        let index : k ≡ i = omega arith in
        let bytes = block_leaves-IsBytes b.transactions in
        elim (Bool-cases
          (str_eq (reversed_bytes (mt.btc_root leaves)) (reversed_bytes b.merkle_root))) [
            | inl t ↦ rw t (
                head_items-climb (hex_decode (reverse_tx_hex tx.tx_id)).0
                  (mt.get_btc_proof leaves i) (laws.btc_proof_bytes leaves i bytes)
                ∙ laws.btc_proof_root leaves i (hex_decode (reverse_tx_hex tx.tx_id)).0 (
                    subst (λ n. get_elem? leaves n ≡ some (hex_decode (reverse_tx_hex tx.tx_id)).0)
                      index at)
                ∙ root_same b h t)
            | inr f ↦ absurd (no_error (rw f at e))
          ]
      where
        no_error : {e : AnchorError} → some e ≡ none → ⊥
        no_error x = cc

    -- When lnd has the block of a transaction, with a root of bytes, and GenerateBtcHeaderProof returns
    -- no error, the head's items made of its message's path
    -- compute the root of the block from the transaction's id, turned around.
    pub generate_btc_header_proof-computes :
        (tx : TxId) (b : BlockDetails)
        → ln.get_block_by_height tx.block_height ≡ BlockAnswer.block b
        → IsBytes b.merkle_root
        → (generate_btc_header_proof mt ln tx).1 ≡ none
        → eval sha
            (hex_decode (reverse_tx_hex tx.tx_id)).0
            (head_items (generate_btc_header_proof mt ln tx).0.path)
          ≡ b.merkle_root
    unfolding generate_btc_header_proof get_block_tree
    generate_btc_header_proof-computes tx b g h e =
        subst
          (λ a.
            eval sha (hex_decode (reverse_tx_hex tx.tx_id)).0
              (head_items (header_proof_of mt ln tx (tree_in mt ln tx.tx_id a)).0.path)
            ≡ b.merkle_root)
          (sym g)
          (path_computes tx b (last_index tx.tx_id 0 b.transactions) refl h
            (subst (λ a. (header_proof_of mt ln tx (tree_in mt ln tx.tx_id a)).1 ≡ none) g e))

    -- The path is made of steps whose nodes are bytes, also when there is an error and no step.
    abbrev pub Steps : BtcMonMsg → Type 0
    Steps msg = (ps : List ProofStep) × (msg.path ≡ js_proofs ps) × Each (λ p. IsBytes p.value) ps

    tree_at-Steps :
        (tx : TxId) (b : BlockDetails) (o : Option ℕ)
        → Steps (header_proof_of mt ln tx (tree_at mt ln b o)).0
    unfolding js_proofs
    tree_at-Steps tx b none = ([], refl, tt)
    tree_at-Steps tx b (some i) =
        let leaves = block_leaves b.transactions in
        elim (Bool-cases
          (str_eq (reversed_bytes (mt.btc_root leaves)) (reversed_bytes b.merkle_root))) [
            | inl t ↦ rw t (
              mt.get_btc_proof leaves i,
              refl,
              laws.btc_proof_bytes leaves i (block_leaves-IsBytes b.transactions),
            )
            | inr f ↦ rw f ([], refl, tt)
          ]

    tree_in-Steps :
        (tx : TxId) (a : BlockAnswer)
        → Steps (header_proof_of mt ln tx (tree_in mt ln tx.tx_id a)).0
    unfolding js_proofs
    tree_in-Steps tx (BlockAnswer.refused message) = ([], refl, tt)
    tree_in-Steps tx (BlockAnswer.block b) =
        tree_at-Steps tx b (last_index tx.tx_id 0 b.transactions)

    pub generate_btc_header_proof-Steps : (tx : TxId) → Steps (generate_btc_header_proof mt ln tx).0
    unfolding generate_btc_header_proof get_block_tree
    generate_btc_header_proof-Steps tx = tree_in-Steps tx (ln.get_block_by_height tx.block_height)
