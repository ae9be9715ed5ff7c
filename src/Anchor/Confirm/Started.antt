-- ===== src/Anchor/Confirm/Started.antt =====
-- MonitorConfirmedTx (anchor/bitcoin/bitcoinanchor.go): which transactions leave the array of those
-- that wait for confirmations, and on which messages ConfirmAnchor is started.
use chainpoint_core.Prelude.{
  zero, suc, ◌<◌, ℤ, pos, negsuc, pos_part, neg_part, ◌+ℤ◌, ◌-ℤ◌, wrap64_of_IsInt64, int_laws,
  add64, sub64, int64_half, ltb_ℤ, leb_ℤ, eqb_ℤ, Str, str_eq, str_eq_refl, Bool, true, false, not,
  ◌&&◌, Bool-cases, inl, inr, Option, none, some, List, [], ◌∷◌, ◌≡◌, refl, ap, sym, subst, ◌∙◌,
  arith, map,
}
use chainpoint_core.Types.{TxId, BtcMonMsg}
use chainpoint_core.LevelDb.{DbOps, DbLaws, StringsJson, StringsJsonLaws}
use chainpoint_core.LevelDb.KvStore.{remove_first}
use chainpoint_core.LevelDb.KvStore.Arrays.{
  ArrayOp, Arrays, array_step, IsView, Works, run, run-IsView,
}
use chainpoint_core.Merkle.{MerkleOps, Each}
use chainpoint_core.Anchor.{
  AnchorJson, AnchorError, LightningClient, Engine, confirmed_btc_tx_ids_key,
}
use chainpoint_core.Anchor.Headers.{generate_btc_header_proof, says_not_found}
use chainpoint_core.Anchor.Confirm.Removal.{
  select, stays, Covered, select-remove_first, Covered-remove_first, Covered-again, Covered-skip,
  select_all, select-same,
}
use chainpoint_core.Anchor.Confirm.{
  is_confirmed, remove_tx, if_not_found, confirm_txs, monitor_confirmed_tx,
}

-- A height of a chain: not negative, as an int64.
abbrev pub IsHeight : ℤ → Type 0
IsHeight a = (neg_part a ≡ 0) × (pos_part a < int64_half)

-- A transaction that was read, is in a block, and has five blocks above its own.
abbrev pub is_deep : ℤ → TxId × Bool → Bool
is_deep btc_height (tx, failed) =
    not failed
    && (not (eqb_ℤ tx.block_height (pos 0)) && leb_ℤ (tx.block_height +ℤ pos 5) btc_height)

-- The count of confirmations does not wrap around for a transaction in a block.
confirmations :
    (h b : ℤ)
    → IsHeight h
    → IsHeight b
    → (not (eqb_ℤ b (pos 0)) && not (ltb_ℤ (add64 (sub64 h b) (pos 1)) (pos 6)))
      ≡ (not (eqb_ℤ b (pos 0)) && leb_ℤ (b +ℤ pos 5) h)
unfolding add64 sub64
confirmations (pos m) (pos zero) p q = refl
confirmations (pos m) (pos (suc n)) p q =
    let d = pos m -ℤ pos (suc n) in
    let e = wrap64_of_IsInt64 d (grind (int_laws)) in
    let e' = wrap64_of_IsInt64 (d +ℤ pos 1) (grind (int_laws)) in rw (e, e') (grind (int_laws))
confirmations (negsuc m) b p q = absurd (omega arith)
confirmations h (negsuc n) p q = absurd (omega arith)

module _ {D : Type 0} (ops : DbOps D) (js : StringsJson) (aj : AnchorJson) (dl : DbLaws D ops)
    (jl : StringsJsonLaws js) (P : Str → Type 0) (of_kind : P confirmed_btc_tx_ids_key)
    (works : (d : D) → Works ops js d) (no_empty : (aj.tx_id.decode []).1 ≡ true)
    (ln : LightningClient) (mt : MerkleOps) where
  abbrev is_due : ℤ → Str → Bool
  is_due h s = not (aj.tx_id.decode s).1 && is_confirmed ops js aj ln mt h (aj.tx_id.decode s).0

  -- The message for a stored text.
  abbrev pub message_of : Str → BtcMonMsg
  message_of s = (generate_btc_header_proof mt ln (aj.tx_id.decode s).0).0

  -- The other arrays of the kind stay as they were.
  abbrev Apart : Arrays → Arrays → Type 0
  Apart f g = (k : Str) → str_eq confirmed_btc_tx_ids_key k ≡ false → g k ≡ f k

  due_is_text : (h : ℤ) (s : Str) → is_due h s ≡ true → str_eq s [] ≡ false
  unfolding str_eq
  due_is_text h [] e = absurd (let q : false ≡ true = rw no_empty at e in cc)
  due_is_text h (c ∷ s) e = refl

  -- Del of a text.
  del-IsView :
      (s : Str) (d : D) (f : Arrays)
      → str_eq s [] ≡ false
      → IsView ops js P d f
      → (g : Arrays) × IsView ops js P (remove_tx ops js aj ln mt s d) g
        × (g confirmed_btc_tx_ids_key ≡ remove_first s (f confirmed_btc_tx_ids_key))
        × Apart f g
  unfolding run
  del-IsView s d f n v =
      let op = ArrayOp.deleted confirmed_btc_tx_ids_key s in
      let (fine, view) = run-IsView ops js dl jl P op d f of_kind v (works d) in
      (
        array_step op f,
        view,
        rw (str_eq_refl confirmed_btc_tx_ids_key, n) refl,
        λ k other. rw other refl,
      )

  -- What a step of the loop does to the array, and what is left of it to remove.
  abbrev Cleared : ℤ → List Str → D → Arrays → Type 0
  Cleared h ss d f =
      (g : Arrays) × IsView ops js P d g
      × (select (stays (is_due h)) (g confirmed_btc_tx_ids_key)
          ≡ select (stays (is_due h)) (f confirmed_btc_tx_ids_key))
      × Covered (is_due h) (g confirmed_btc_tx_ids_key) ss
      × Apart f g

  clear :
      (h : ℤ) (s : Str) (ss : List Str) (d : D) (f : Arrays)
      → is_due h s ≡ true
      → IsView ops js P d f
      → Covered (is_due h) (remove_first s (f confirmed_btc_tx_ids_key)) ss
      → Cleared h ss (remove_tx ops js aj ln mt s d) f
  clear h s ss d f due v c =
      let (g, view, e, others) = del-IsView s d f (due_is_text h s due) v in
      (
        g,
        view,
        ap (select (stays (is_due h))) e
            ∙ select-remove_first (is_due h) s (f confirmed_btc_tx_ids_key) due,
        subst (λ l. Covered (is_due h) l ss) (sym e) c,
        others,
      )

  -- A transaction that is not in its block is removed a second time.
  clear_all :
      (h : ℤ) (s : Str) (ss : List Str) (e : Option AnchorError) (d : D) (f : Arrays)
      → is_due h s ≡ true
      → IsView ops js P d f
      → Covered (is_due h) (f confirmed_btc_tx_ids_key) (s ∷ ss)
      → Cleared h ss (remove_tx ops js aj ln mt s (if_not_found ops js aj ln mt s e d)) f
  clear_all h s ss none d f due v c =
      clear h s ss d f due v (Covered-remove_first (is_due h) s (f confirmed_btc_tx_ids_key) ss c)
  clear_all h s ss (some err) d f due v c = elim (Bool-cases (says_not_found err)) [
    | inr n ↦ rw n (
        clear h s ss d f due v
          (Covered-remove_first (is_due h) s (f confirmed_btc_tx_ids_key) ss c))
    | inl n ↦
        let (g, view, same, covered, others) =
          clear h s ss d f due v
            (Covered-remove_first (is_due h) s (f confirmed_btc_tx_ids_key) ss c) in
        let (g', view', same', covered', others') =
          clear h s ss (remove_tx ops js aj ln mt s d) g due view
            (Covered-again (is_due h) s (g confirmed_btc_tx_ids_key) ss covered) in
        rw n (g', view', same' ∙ same, covered', λ k o. others' k o ∙ others k o)
  ]

  -- The messages, and the arrays with the given array of transactions.
  abbrev Leaves : List BtcMonMsg → List Str → Arrays → D × List BtcMonMsg → Type 0
  Leaves messages left f (d, started) =
      (started ≡ messages)
      × ((g : Arrays) × IsView ops js P d g × (g confirmed_btc_tx_ids_key ≡ left) × Apart f g)

  loop_Leaves :
      (h : ℤ) (ss : List Str) (d : D) (f : Arrays)
      → IsView ops js P d f
      → Covered (is_due h) (f confirmed_btc_tx_ids_key) ss
      → Leaves
          (map message_of (select (is_due h) ss))
          (select (stays (is_due h)) (f confirmed_btc_tx_ids_key))
          f
          (confirm_txs ops js aj ln mt h ss d)
  unfolding confirm_txs
  loop_Leaves h [] d f v c =
      (refl, (f, v, sym (select_all (is_due h) (f confirmed_btc_tx_ids_key) c), λ k o. refl))
  loop_Leaves h (s ∷ ss) d f v c = elim (Bool-cases (is_due h s)) [
    | inr n ↦
        rw (confirm_txs, n)
          (loop_Leaves h ss d f v (Covered-skip (is_due h) s (f confirmed_btc_tx_ids_key) ss n c))
    | inl due ↦
        let e = (generate_btc_header_proof mt ln (aj.tx_id.decode s).0).1 in
        let (g, view, same, covered, others) = clear_all h s ss e d f due v c in
        let (started, (g', view', left, others')) =
          loop_Leaves h ss (remove_tx ops js aj ln mt s (if_not_found ops js aj ln mt s e d)) g view
            covered in
        rw (confirm_txs, due)
          (
            ap (◌∷◌ (message_of s)) started,
            (g', view', left ∙ same, λ k o. others' k o ∙ others k o),
          )
  ]

  abbrev pub deep_at : ℤ → Str → Bool
  deep_at h s = is_deep h (aj.tx_id.decode s)

  due_is_deep :
      (h : ℤ) (s : Str)
      → IsHeight h
      → IsHeight (aj.tx_id.decode s).0.block_height
      → is_due h s ≡ deep_at h s
  due_is_deep h s p q =
      ap (λ b. not (aj.tx_id.decode s).1 && b)
        (confirmations h (aj.tx_id.decode s).0.block_height p q)

  all_due :
      (h : ℤ) (ss : List Str)
      → IsHeight h
      → Each (λ s. IsHeight (aj.tx_id.decode s).0.block_height) ss
      → Each (λ s. is_due h s ≡ deep_at h s) ss
  all_due h [] p q = tt
  all_due h (s ∷ ss) p (q, qs) = (due_is_deep h s p q, all_due h ss p qs)

  all_stay :
      (h : ℤ) (ss : List Str)
      → Each (λ s. is_due h s ≡ deep_at h s) ss
      → Each (λ s. stays (is_due h) s ≡ not (deep_at h s)) ss
  all_stay h [] e = tt
  all_stay h (s ∷ ss) (e, es) = (ap not e, all_stay h ss es)

  -- What MonitorConfirmedTx leaves: the state, the messages it starts ConfirmAnchor on, and the arrays.
  abbrev pub Confirms : Engine D → Arrays → Engine D × List BtcMonMsg → Type 0
  Confirms eng f r =
      (r.0.state ≡ eng.state)
      × (r.1 ≡ map message_of (select (deep_at eng.state.btc_height) (f confirmed_btc_tx_ids_key)))
      × ((g : Arrays) × IsView ops js P r.0.db g
          × (g confirmed_btc_tx_ids_key
              ≡ select (λ s. not (deep_at eng.state.btc_height s)) (f confirmed_btc_tx_ids_key))
          × Apart f g)

  -- On a database whose writes do not fail and whose arrays of some kind, that of the transactions
  -- waiting for confirmations among them, are those of a function, where the empty text is no
  -- transaction and no height is negative: MonitorConfirmedTx takes out of the array exactly the
  -- transactions in a block that has five blocks above it, every occurrence of them, whether or not
  -- their headers' proofs succeed, and starts ConfirmAnchor on what GenerateBtcHeaderProof returned
  -- for each, in their order; that message is started also when it returned an error. The other
  -- transactions keep their order, and the other arrays of the kind and the state stay as they were.
  pub monitor_confirmed_tx-Confirms :
      (eng : Engine D) (f : Arrays)
      → IsView ops js P eng.db f
      → IsHeight eng.state.btc_height
      → Each (λ s. IsHeight (aj.tx_id.decode s).0.block_height) (f confirmed_btc_tx_ids_key)
      → Confirms eng f (monitor_confirmed_tx ops js aj ln mt eng)
  unfolding monitor_confirmed_tx
  monitor_confirmed_tx-Confirms eng f v h hs =
      let l = f confirmed_btc_tx_ids_key in
      let due = is_due eng.state.btc_height in
      let e = v.reads confirmed_btc_tx_ids_key of_kind in
      let same = all_due eng.state.btc_height l h hs in
      let (started, (g, view, left, others)) =
        loop_Leaves eng.state.btc_height l eng.db f v (λ t k. omega arith) in
      rw (monitor_confirmed_tx, ap (λ p. p.1) e, ap (λ p. p.0) e)
        (
          refl,
          started ∙ ap (map message_of) (select-same due (deep_at eng.state.btc_height) l same),
          (
            g,
            view,
            left
                ∙ select-same (stays due) (λ s. not (deep_at eng.state.btc_height s)) l
                    (all_stay eng.state.btc_height l same),
            others,
          ),
        )
