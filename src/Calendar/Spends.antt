-- ===== src/Calendar/Spends.antt =====
-- GenerateAnchorBtcTxState (calendar/calendar.go): from the root in a transaction to the transaction.
use chainpoint_core.Prelude.{
  ◌+◌, Str, str, false, some, List, [], ◌∷◌, ◌++◌, length, take, drop, ◌≡◌, refl, ap, sym, ◌∙◌,
  returns, append_assoc, length-append,
}
use chainpoint_core.Types.{BtcTxMsg, AnchorBtcTxState}
use chainpoint_core.LevelDb.{IsAscii, is_ascii, is_ascii-IsAscii}
use chainpoint_core.Strconv.Hex.{hex_encode, IsBytes}
use chainpoint_core.Util.TxHex.{hex_encode-append}
use chainpoint_core.Merkle.Eval.{
  eval, eval_item, left_item, right_item, eval_item-left, eval_item-right, eval_item-op,
  run_op-sha_twice, text_bytes-hex_encode,
}
use chainpoint_core.Calendar.{OpsJson, btc_tx_ops, text_index, generate_anchor_btc_tx_state}
use chainpoint_core.Aggregator.Sound.{OpsJsonLaws, hex_encode-IsAscii}

pub take-append {ℓ} : {A : Type ℓ} (a b : List A) → take (length a) (a ++ b) ≡ a
take-append [] b = refl
take-append (x ∷ a) b = ap (◌∷◌ x) (take-append a b)

pub drop_prefix {ℓ} : {A : Type ℓ} (a c : List A) → drop (length a) (a ++ c) ≡ c
drop_prefix [] c = refl
drop_prefix (x ∷ a) c = drop_prefix a c

drop-append {ℓ} : {A : Type ℓ} (a b c : List A) → drop (length a + length b) (a ++ (b ++ c)) ≡ c
drop-append a b c =
    ap (λ n. drop n (a ++ (b ++ c))) (sym (length-append a b))
    ∙ ap (drop (length (a ++ b))) (sym (append_assoc a b c))
    ∙ drop_prefix (a ++ b) c

x2-IsAscii : IsAscii (str "sha-256-x2")
unfolding is_ascii
x2-IsAscii = is_ascii-IsAscii (str "sha-256-x2") refl

module _ (sha : Str → Str) (js : OpsJson) (jl : OpsJsonLaws js) where
  -- The operations of a transaction compute its id's bytes from the root that it carries.
  btc_tx_ops_lem :
      (pre root post : Str)
      → IsBytes pre
      → IsBytes post
      → eval sha root (btc_tx_ops js (hex_encode pre) (hex_encode post))
        ≡ sha (sha (pre ++ (root ++ post)))
  unfolding eval
  btc_tx_ops_lem pre root post h k =
      let left = eval_item sha root (left_item (hex_encode pre)) in
      eval_item-op sha (eval_item sha left (right_item (hex_encode post))) (str "sha-256-x2")
      ∙ ap (λ f. f (eval_item sha left (right_item (hex_encode post)))) (run_op-sha_twice sha)
      ∙ ap (λ x. sha (sha x))
          (eval_item-right sha left (hex_encode post)
            ∙ ap (λ x. left ++ x) (text_bytes-hex_encode post k)
            ∙ ap (λ x. x ++ post)
                (eval_item-left sha root (hex_encode pre)
                  ∙ ap (λ x. x ++ root) (text_bytes-hex_encode pre h))
            ∙ append_assoc pre root post)

  body_lem :
      (pre root post : Str)
      → hex_encode (pre ++ (root ++ post)) ≡ hex_encode pre ++ (hex_encode root ++ hex_encode post)
  body_lem pre root post =
      hex_encode-append pre (root ++ post)
      ∙ ap (λ x. hex_encode pre ++ x) (hex_encode-append root post)

  -- When the body of the transaction is the hexadecimal text of bytes around the root's, and the first
  -- place where the root's text occurs is that one, GenerateAnchorBtcTxState returns a state whose
  -- stored operations can be read and compute the double hash of the body from the root.
  pub generate_anchor_btc_tx_state-computes :
      (msg : BtcTxMsg) (pre root post : Str)
      → IsBytes pre
      → IsBytes post
      → msg.btc_tx_body ≡ hex_encode (pre ++ (root ++ post))
      → msg.anchor_btc_agg_root ≡ hex_encode root
      → text_index msg.btc_tx_body msg.anchor_btc_agg_root ≡ some (length (hex_encode pre))
      → (s : AnchorBtcTxState) × (generate_anchor_btc_tx_state js msg ≡ returns s)
        × ((js.decode s.btc_tx_state).1 ≡ false)
        × (eval sha root (js.decode s.btc_tx_state).0.ops ≡ sha (sha (pre ++ (root ++ post))))
  unfolding generate_anchor_btc_tx_state
  generate_anchor_btc_tx_state-computes msg pre root post h k body at_root index =
      let left : take (length (hex_encode pre)) msg.btc_tx_body ≡ hex_encode pre =
        ap (take (length (hex_encode pre))) (body ∙ body_lem pre root post)
        ∙ take-append (hex_encode pre) (hex_encode root ++ hex_encode post) in
      let right : drop (length (hex_encode pre) + length msg.anchor_btc_agg_root) msg.btc_tx_body
          ≡ hex_encode post =
        ap (λ r. drop (length (hex_encode pre) + length r) msg.btc_tx_body) at_root
        ∙ ap (drop (length (hex_encode pre) + length (hex_encode root)))
            (body ∙ body_lem pre root post)
        ∙ drop-append (hex_encode pre) (hex_encode root) (hex_encode post) in
      let (t, written, read) =
        jl.stored (record { ops = btc_tx_ops js (hex_encode pre) (hex_encode post) })
          (
            (hex_encode-IsAscii pre h, tt, tt),
            ((tt, hex_encode-IsAscii post k, tt), ((tt, tt, x2-IsAscii), tt)),
          ) in
      rw (index, left, right, written)
        (
          _,
          refl,
          ap (λ r. r.1) read,
          ap (λ r. eval sha root r.0.ops) read ∙ btc_tx_ops_lem pre root post h k,
        )
