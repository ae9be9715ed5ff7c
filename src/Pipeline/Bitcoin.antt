-- ===== src/Pipeline/Bitcoin.antt =====
-- From a calendar root to the root of a Bitcoin block: calendar/calendar.go, proof/proof.go and
-- anchor/bitcoin/bitcoinanchor.go together.
use chainpoint_core.Prelude.{
  ℕ, ◌+◌, Str, str, str_eq, Bool, true, false, none, some, List, [], ◌∷◌, ◌++◌, length, leb, ◌≡◌,
  refl, ap, sym, subst, ◌∙◌, returns,
}
use chainpoint_core.LevelDb.{IsAscii, is_ascii, is_ascii-IsAscii}
use chainpoint_core.Types.{
  BtcAgg, BtcProofData, BtcTxMsg, BtcMonMsg, TxId, ProofLineItem, AnchorBtcAggState,
  AnchorBtcTxState, AnchorBtcHeadState,
}
use chainpoint_core.Strconv.{format_int}
use chainpoint_core.Strconv.Ascii.{format_int-IsAscii}
use chainpoint_core.Strconv.Hex.{hex_encode, hex_decode, IsBytes}
use chainpoint_core.Merkle.{MerkleOps, MerkleLaws, ProofStep, Each}
use chainpoint_core.Merkle.Eval.{eval, op_item}
use chainpoint_core.Calendar.{
  OpsJson, cal_uri, ResultTx, firsts, btc_proofs, btca_states, prepare_btca_state_data, side_items,
  head_items, generate_head_state_object,
}
use chainpoint_core.Calendar.Sound.{AllAnchored}
use chainpoint_core.Aggregator.Sound.{
  AsciiItems, OpsJsonLaws, hex_encode-IsAscii, lines_of-AsciiItems,
}
use chainpoint_core.Externals.{Externals}
use chainpoint_core.Util.TxHex.{reverse_tx_hex}
use chainpoint_core.Calendar.{
  kept_leaves, agg_of, tree_of, aggregate_anchor_tx, text_index, generate_anchor_btc_tx_state,
}
use chainpoint_core.Calendar.Sound.{kept_leaves-IsBytes, btc_proofs_after}
use chainpoint_core.Calendar.Spends.{generate_anchor_btc_tx_state-computes}
use chainpoint_core.Anchor.{LightningClient, BlockAnswer, BlockDetails}
use chainpoint_core.Anchor.Headers.{generate_btc_header_proof}
use chainpoint_core.Anchor.Headers.Sound.{
  generate_btc_header_proof-computes, generate_btc_header_proof-Steps,
}
use chainpoint_core.Proof.{P, Objects, cons, objects, single, get_field, add_chain_branch}
use chainpoint_core.Proof.Sound.{eval_branch, add_chain_branch-computes}
use chainpoint_core.Pipeline.{cal_uri-IsAscii}
use chainpoint_core.Aggregator.Proofs.{sha256-IsAscii}
use chainpoint_core.Anchor.Headers.{js_proof, js_proofs}

-- Each kept transaction has its state, in order, whose stored operations compute the given root.
abbrev pub AllAnchorStored :
    (Str → Str) → OpsJson → Str → List (Str × ResultTx) → List AnchorBtcAggState → Type 0
AllAnchorStored sha js root [] [] = Unit {0}
AllAnchorStored sha js root ((b, t) ∷ kept) (s ∷ ss) =
    ((s.cal_id ≡ hex_encode t.hash)
      × ((js.decode s.anchor_btc_agg_state).1 ≡ false)
      × (eval sha b (js.decode s.anchor_btc_agg_state).0.ops ≡ root))
    × AllAnchorStored sha js root kept ss
AllAnchorStored sha js root _ _ = ⊥

x2-IsAscii : IsAscii (str "sha-256-x2")
unfolding is_ascii
x2-IsAscii = is_ascii-IsAscii (str "sha-256-x2") refl

side_step-AsciiItems :
    (left : Bool) (v : Str) (rest : List ProofLineItem)
    → IsBytes v
    → AsciiItems rest
    → let p : ProofStep = record { left = left; value = v } in
      AsciiItems (side_items (js_proof p).left (js_proof p).right rest)
unfolding str_eq hex_encode
side_step-AsciiItems true [] rest h r = r
side_step-AsciiItems false [] rest h r = r
side_step-AsciiItems true (c ∷ v) rest h r = ((hex_encode-IsAscii (c ∷ v) h, tt, tt), r)
side_step-AsciiItems false (c ∷ v) rest h r = ((tt, hex_encode-IsAscii (c ∷ v) h, tt), r)

head_items-AsciiItems :
    (ps : List ProofStep) → Each (λ p. IsBytes p.value) ps → AsciiItems (head_items (js_proofs ps))
unfolding head_items js_proofs
head_items-AsciiItems [] h = tt
head_items-AsciiItems (p ∷ ps) (h, hs) =
    side_step-AsciiItems p.left p.value (op_item (str "sha-256-x2") ∷ head_items (js_proofs ps)) h
      ((tt, tt, x2-IsAscii), head_items-AsciiItems ps hs)

module _ (sha : Str → Str) (mt : MerkleOps) (laws : MerkleLaws sha mt) (js : OpsJson)
    (jl : OpsJsonLaws js) where
  btc_proofs-AsciiItems :
      (leaves : List Str) (i : ℕ) (kept : List (Str × ResultTx))
      → Each IsBytes leaves
      → Each (λ p. AsciiItems p.proof) (btc_proofs mt leaves i kept)
  unfolding btc_proofs
  btc_proofs-AsciiItems leaves i [] b = tt
  btc_proofs-AsciiItems leaves i ((x, t) ∷ kept) b = (
    lines_of-AsciiItems (str "sha-256") (mt.get_proof leaves i) sha256-IsAscii
        (laws.proof_bytes leaves i b),
    btc_proofs-AsciiItems leaves (i + 1) kept b,
  )

  btca_states-AllAnchorStored :
      (root agg_id : Str) (kept : List (Str × ResultTx)) (ps : List BtcProofData)
      → AllAnchored sha root kept ps
      → Each (λ p. AsciiItems p.proof) ps
      → AllAnchorStored sha js root kept (btca_states js agg_id ps)
  unfolding btca_states
  btca_states-AllAnchorStored root agg_id [] [] a s = tt
  btca_states-AllAnchorStored root agg_id [] (_ ∷ ps) a s = elim a [ ]
  btca_states-AllAnchorStored root agg_id ((b, t) ∷ kept) [] a s = elim a [ ]
  btca_states-AllAnchorStored root agg_id ((b, t) ∷ kept) (p ∷ ps) (same, computes, more) (s, ss) =
      let (text, written, read) = jl.stored (record { ops = p.proof }) s in
      rw (btca_states, written)
        (
          (same, ap (λ r. r.1) read, ap (λ r. eval sha b r.0.ops) read ∙ computes),
          btca_states-AllAnchorStored root agg_id kept ps more ss,
        )

  -- The head's operations are stored, and compute what the path of the header computes.
  generate_head_state_object_stored :
      (to_lower : Str → Str) (uri hash : Str) (mon : BtcMonMsg) (steps : List ProofStep)
      → ((s : Str) → IsAscii s → IsAscii (to_lower s))
      → IsAscii uri
      → IsBytes hash
      → mon.path ≡ js_proofs steps
      → Each (λ p. IsBytes p.value) steps
      → let head = generate_head_state_object js to_lower uri hash mon in
        ((js.decode_anchor head.btc_head_state).1 ≡ false)
        × ((js.decode_anchor head.btc_head_state).0.ops ≡ head_items mon.path)
  unfolding generate_head_state_object
  generate_head_state_object_stored to_lower uri hash mon steps lower u h e b =
      let ascii = subst (λ p. AsciiItems (head_items p)) (sym e) (head_items-AsciiItems steps b) in
      let (text, written, read) =
        jl.anchor_stored
          (record {
            ops = head_items mon.path;
            anchor = record {
              anchor_id = format_int mon.btc_head_height;
              uris = to_lower (cal_uri uri (hex_encode hash)) ∷ [];
            };
          })
          ascii (format_int-IsAscii mon.btc_head_height)
          (
            lower (cal_uri uri (hex_encode hash))
                (cal_uri-IsAscii uri (hex_encode hash) u (hex_encode-IsAscii hash h)),
            tt,
          ) in
      rw written (ap (λ r. r.1) read, ap (λ r. r.0.ops) read)

  -- The chain branch of a calendar transaction, with its anchor's states, computes the given root.
  abbrev pub Links : Str → AnchorBtcTxState → AnchorBtcHeadState → Str → AnchorBtcAggState → Type 0
  Links root tx_state head cal state =
      (proof first : P) (rest : Objects) (proof_type : Str)
      → get_field (str "branches") proof ≡ some (objects (cons first rest))
      → (after : P) × (first' : P) × (branch : P) × (add_chain_branch js proof state tx_state head
            proof_type
          ≡ returns (after, false))
        × (get_field (str "branches") after ≡ some (objects (cons first' rest)))
        × (get_field (str "branches") first' ≡ some (objects (single branch)))
        × (eval_branch sha cal branch ≡ root)
        × ((acc : Str) → eval_branch sha acc first' ≡ eval_branch sha acc first)

  abbrev pub AllLink :
      Str
      → AnchorBtcTxState
      → AnchorBtcHeadState
      → List (Str × ResultTx)
      → List AnchorBtcAggState
      → Type 0
  AllLink root tx_state head [] [] = Unit {0}
  AllLink root tx_state head ((b, t) ∷ kept) (s ∷ ss) =
      (s.cal_id ≡ hex_encode t.hash)
      × Links root tx_state head b s
      × AllLink root tx_state head kept ss
  AllLink root tx_state head _ _ = ⊥

  all_link :
      (anchor_root txid root : Str) (tx_state : AnchorBtcTxState) (head : AnchorBtcHeadState)
      (kept : List (Str × ResultTx)) (ss : List AnchorBtcAggState)
      → (js.decode tx_state.btc_tx_state).1 ≡ false
      → eval sha anchor_root (js.decode tx_state.btc_tx_state).0.ops ≡ txid
      → (js.decode_anchor head.btc_head_state).1 ≡ false
      → eval sha txid (js.decode_anchor head.btc_head_state).0.ops ≡ root
      → AllAnchorStored sha js anchor_root kept ss
      → AllLink root tx_state head kept ss
  all_link anchor_root txid root tx_state head [] [] t tc h hc a = tt
  all_link anchor_root txid root tx_state head [] (_ ∷ ss) t tc h hc a = elim a [ ]
  all_link anchor_root txid root tx_state head ((b, r) ∷ kept) [] t tc h hc a = elim a [ ]
  all_link anchor_root txid root tx_state head ((b, r) ∷ kept) (s ∷ ss) t tc h hc
        ((same, fine, computes), more) =
      let head_ops = (js.decode_anchor head.btc_head_state).0.ops in
      let tx_ops = (js.decode tx_state.btc_tx_state).0.ops in
      (
        same,
        (λ proof first rest proof_type e.
            let (after, first', branch, returned, under, single_branch, does, keeps) =
              add_chain_branch-computes sha js proof first rest s tx_state head proof_type e fine t
                h in
            (
              after,
              first',
              branch,
              returned,
              under,
              single_branch,
              does b
                  ∙ ap (λ x. eval sha (eval sha x tx_ops) head_ops) computes
                  ∙ ap (λ x. eval sha x head_ops) tc
                  ∙ hc,
              keeps,
            )),
        all_link anchor_root txid root tx_state head kept ss t tc h hc more,
      )

  made_lem :
      (ext : Externals) (uuid_of : Str → Str) (t : ResultTx) (ts : List ResultTx)
      → leb 16 (length (mt.root (firsts (kept_leaves ext (t ∷ ts))))) ≡ true
      → aggregate_anchor_tx mt ext uuid_of (t ∷ ts)
        ≡ returns (agg_of mt uuid_of (kept_leaves ext (t ∷ ts)))
  unfolding aggregate_anchor_tx tree_of
  made_lem ext uuid_of t ts long = rw long refl

  -- The CALs of a range are anchored: AggregateAnchorTx makes their tree, whose root of at least 16 bytes
  -- stands, for the first time, in the hexadecimal body of a transaction; the id of the transaction is
  -- the double hash of the body, turned around, and GenerateBtcHeaderProof succeeds in a block whose
  -- root is of bytes. Then both states are made, and for each of those CALs, in order, AddChainBranch on
  -- a proof that has a branch returns no error and puts under it a branch that computes the root of the
  -- block from the calendar root of the CAL. The text of the uri is ASCII, also in
  -- lower case.
  pub aggregate_anchor_tx-AllLink :
      (ext : Externals) (uuid_of to_lower : Str → Str) (ln : LightningClient) (t : ResultTx)
      (ts : List ResultTx) (msg : BtcTxMsg) (pre post uri hash : Str) (tx : TxId) (b : BlockDetails)
      → let kept = kept_leaves ext (t ∷ ts) in
        let root = mt.root (firsts kept) in
        leb 16 (length root) ≡ true
        → IsBytes pre
        → IsBytes post
        → msg.btc_tx_body ≡ hex_encode (pre ++ (root ++ post))
        → msg.anchor_btc_agg_root ≡ hex_encode root
        → text_index msg.btc_tx_body msg.anchor_btc_agg_root ≡ some (length (hex_encode pre))
        → (hex_decode (reverse_tx_hex tx.tx_id)).0 ≡ sha (sha (pre ++ (root ++ post)))
        → ln.get_block_by_height tx.block_height ≡ BlockAnswer.block b
        → IsBytes b.merkle_root
        → (generate_btc_header_proof mt ln tx).1 ≡ none
        → ((s : Str) → IsAscii s → IsAscii (to_lower s))
        → IsAscii uri
        → IsBytes hash
        → (agg : BtcAgg) × (tx_state : AnchorBtcTxState) × (aggregate_anchor_tx mt ext uuid_of
              (t ∷ ts)
            ≡ returns agg)
          × (generate_anchor_btc_tx_state js msg ≡ returns tx_state)
          × AllLink b.merkle_root tx_state
              (generate_head_state_object js to_lower uri hash
                (generate_btc_header_proof mt ln tx).0)
              kept
              (prepare_btca_state_data js agg)
  unfolding prepare_btca_state_data
  aggregate_anchor_tx-AllLink ext uuid_of to_lower ln t ts msg pre post uri hash tx b long pb qb
        body carried index id block_there rb fine lower u hb =
      let kept = kept_leaves ext (t ∷ ts) in
      let root = mt.root (firsts kept) in
      let bytes = kept_leaves-IsBytes ext (t ∷ ts) in
      let mon = (generate_btc_header_proof mt ln tx).0 in
      let stored =
        btca_states-AllAnchorStored root (agg_of mt uuid_of kept).anchor_btc_agg_id kept
          (btc_proofs mt (firsts kept) 0 kept)
          (btc_proofs_after sha mt laws (firsts kept) [] 0 kept bytes refl refl)
          (btc_proofs-AsciiItems (firsts kept) 0 kept bytes) in
      let (tx_state, spent, tx_read, tx_computes) =
        generate_anchor_btc_tx_state-computes sha js jl msg pre root post pb qb body carried
          index in
      let (steps, path, step_bytes) = generate_btc_header_proof-Steps sha mt laws ln tx in
      let (head_read, head_ops) =
        generate_head_state_object_stored to_lower uri hash mon steps lower u hb path step_bytes in
      let head_computes =
        ap (λ o. eval sha (sha (sha (pre ++ (root ++ post)))) o) head_ops
        ∙ ap (λ x. eval sha x (head_items mon.path)) (sym id)
        ∙ generate_btc_header_proof-computes sha mt laws ln tx b block_there rb fine in
      (
        agg_of mt uuid_of kept,
        tx_state,
        made_lem ext uuid_of t ts long,
        spent,
        all_link root (sha (sha (pre ++ (root ++ post)))) b.merkle_root tx_state
            (generate_head_state_object js to_lower uri hash mon) kept
            (btca_states js (agg_of mt uuid_of kept).anchor_btc_agg_id
              (btc_proofs mt (firsts kept) 0 kept))
            tx_read tx_computes head_read head_computes stored,
      )
