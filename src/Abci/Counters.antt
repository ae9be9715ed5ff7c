-- ===== src/Abci/Counters.antt =====
-- The transaction counters of the state against an abstract counter, over deliveries.
use chainpoint_core.Prelude.{
  ℤ, pos, inc64, Str, Bool, true, false, Option, none, some, List, [], ◌∷◌, ◌≡◌, refl, sym, ap,
  subst, ◌∙◌, arith, str_eq, eqb_ℤ, split, returns, >>=-returns, returns-injective, Bool-cases, inl,
  inr,
}
use chainpoint_core.Types.{Tx, AnchorState, Jwk, PublicKey, ValidatorUpdate, BtcMonMsg}
use chainpoint_core.Externals.{Externals}
use chainpoint_core.LevelDb.{DbOps}
use chainpoint_core.TxKind.{
  TxKind, val, chngstk, cal, btc_e, btc_a, btc_c, nist, drand, fee, jwk, other, kind_of,
}
use chainpoint_core.Util.Tx.{Error}
use chainpoint_core.TxRateLimiter.{
  increment_success_anchor, set_validation_record, get_validation_record,
}
use chainpoint_core.Abci.{App, Code, ok, Tag}
use chainpoint_core.Abci.Validators.{
  ValTx, ValError, exec_parsed, exec_validator_tx, update_validator, validate_validator_tx,
}
use chainpoint_core.Abci.Identity.{
  save_identity, set_identity, with_jwk, mark_staked, same_kid, store_identity, decode_pub_key,
}
use chainpoint_core.Abci.Deliver.{
  Delivery, with_state, seen, confirm, reward, confirm_v3, saved, deliver_chngstk, deliver_cal,
  deliver_btc_e, deliver_btc_a, deliver_btc_c, deliver_fee, deliver_jwk, deliver_val, deliver_kind,
  delivered_tx, update_state_from_tx, increment_tx_int,
}

-- The integer of the last transaction, that of the last CAL, and the CALs since the last block's end.
pub record Counters : Type 0 where
  pub tx_int : ℤ
  pub latest_cal : ℤ
  pub current_cal : ℤ

abbrev pub counters_of : AnchorState → Counters
counters_of s = record {
  tx_int = s.tx_int;
  latest_cal = s.latest_cal_tx_int;
  current_cal = s.current_cal_ints;
}

abbrev pub bump : Counters → Counters
bump c = record c { tx_int = inc64 c.tx_int }

-- What a delivery of each type does to the counters, by whether its response is OK.
abbrev pub count_step : TxKind → Code → Counters → Counters
count_step val _ c = bump c
count_step cal _ c = record {
  tx_int = inc64 c.tx_int;
  latest_cal = inc64 c.tx_int;
  current_cal = inc64 c.current_cal;
}
count_step chngstk ok c = bump c
count_step btc_a ok c = bump c
count_step btc_c ok c = bump c
count_step jwk ok c = bump c
count_step _ _ c = c

counters_set_validation_record :
    (id : Str) (s : AnchorState) → counters_of (increment_success_anchor id s).0 ≡ counters_of s
unfolding increment_success_anchor set_validation_record get_validation_record
counters_set_validation_record id s = ground arith

module _ (ext : Externals) where
  counters_store_identity :
      (tx : Tx) (j : Jwk) (s : AnchorState) (key : Option PublicKey) {s' : AnchorState}
      → store_identity ext tx j s key ≡ returns s'
      → counters_of s' ≡ counters_of s
  unfolding store_identity
  counters_store_identity tx j s none e = cc
  counters_store_identity tx j s (some key) e = ap counters_of (sym (returns-injective e))

  counters_with_jwk :
      (tx : Tx) (s : AnchorState) (d : Jwk × Bool) {r : AnchorState × Jwk × Option Error}
      → with_jwk ext tx s d ≡ returns r
      → counters_of r.0 ≡ counters_of s
  counters_with_jwk tx s (j, true) e = ap (λ x. counters_of x.0) (sym (returns-injective e))
  counters_with_jwk tx s (j, false) e =
      let (key, p, q) = >>=-returns (decode_pub_key ext tx) _ e in
      let (s1, p1, q1) = >>=-returns (store_identity ext tx j s key) _ q in
      ap (λ x. counters_of x.0) (sym (returns-injective q1)) ∙ counters_store_identity tx j s key p1

  counters_mark_staked :
      (own : Str) (r : AnchorState × Jwk × Option Error)
      → counters_of (mark_staked ext own r).0 ≡ counters_of r.0
  counters_mark_staked own (s, j, some e) = refl
  counters_mark_staked own (s, j, none) = elim (Bool-cases (same_kid ext j.kid own)) [
    | inl e ↦ rw e refl
    | inr e ↦ rw e refl
  ]

  -- Saving an identity, when it does not panic, leaves the counters alone.
  counters_save_identity :
      (own : Str) (tx : Tx) (s : AnchorState) {r : AnchorState × Option Error}
      → save_identity ext own tx s ≡ returns r
      → counters_of r.0 ≡ counters_of s
  unfolding save_identity set_identity
  counters_save_identity own tx s e =
      let (r1, p, q) = >>=-returns (set_identity ext tx s) _ e in
      ap (λ x. counters_of x.0) (sym (returns-injective q))
      ∙ counters_mark_staked own r1
      ∙ counters_with_jwk tx s (ext.jwk_of_json tx.tx_data) p

  module _ {D : Type 0} (ops : DbOps D) where
    -- Updating a validator leaves the state alone.
    pub state_update_validator :
        (v : ValidatorUpdate) (app : App D) {r : App D × Code}
        → update_validator ext ops v app ≡ returns r
        → r.0.state ≡ app.state
    unfolding update_validator
    state_update_validator v app e = ground arith

    state_exec_parsed :
        (app : App D) (t : ValTx) (e : Option ValError) {r : App D × Code}
        → exec_parsed ext ops app t e ≡ returns r
        → r.0.state ≡ app.state
    state_exec_parsed app t none e =
        state_update_validator (record { pub_key = t.pubkey; power = t.power }) app e
    state_exec_parsed app t (some _) e = ap (λ x. x.0.state) (sym (returns-injective e))

    state_exec_validator_tx :
        (s : Str) (app : App D) {r : App D × Code}
        → exec_validator_tx ext ops s app ≡ returns r
        → r.0.state ≡ app.state
    unfolding exec_validator_tx
    state_exec_validator_tx s app e =
        let (t, p, q) = >>=-returns (validate_validator_tx ext s) _ e in
        state_exec_parsed app t t.err q

    abbrev Refines : TxKind → App D → Delivery D → Type 0
    Refines k app d = counters_of d.app.state ≡ count_step k d.code (counters_of app.state)

    Refines-val :
        (app : App D) (tx : Tx) {d : Delivery D}
        → deliver_val ext ops app tx ≡ returns d
        → Refines val app d
    unfolding deliver_val
    Refines-val app tx e =
        let s = (increment_tx_int app.state []).0 in
        let (r, p, q) = >>=-returns (exec_validator_tx ext ops tx.tx_data (with_state app s)) _ e in
        ap (λ x. counters_of x.app.state) (sym (returns-injective q))
        ∙ ap counters_of (state_exec_validator_tx tx.tx_data (with_state app s) p)

    Refines-saved :
        (app : App D) (r : AnchorState × Option Error)
        → counters_of r.0 ≡ counters_of app.state
        → Refines jwk app (saved ext app r)
    unfolding increment_tx_int
    Refines-saved app (s, some e) h = h
    Refines-saved app (s, none) h = ap bump h

    Refines-jwk :
        (app : App D) (tx : Tx) {d : Delivery D}
        → deliver_jwk ext app tx ≡ returns d
        → Refines jwk app d
    unfolding deliver_jwk
    Refines-jwk app tx e =
        let (r, p, q) = >>=-returns (save_identity ext app.jwk_kid tx app.state) _ e in
        subst (Refines jwk app) (returns-injective q)
          (Refines-saved app r (counters_save_identity app.jwk_kid tx app.state p))

    refines_reward :
        (app : App D) (tags : List Tag) (fields : List Str)
        → let d = reward app tags fields in
          (counters_of d.app.state ≡ counters_of app.state) × (d.code ≡ ok)
    refines_reward app tags [] = (refl, refl)
    refines_reward app tags (core ∷ rest) = (
      counters_set_validation_record core (record app.state { last_anchor_core_id = core }),
      refl,
    )

    refines_confirm :
        (app : App D) (tx : Tx) (tags : List Tag)
        → let d = confirm app tx tags in
          (counters_of d.app.state ≡ bump (counters_of app.state)) × (d.code ≡ ok)
    unfolding confirm
    refines_confirm app tx tags = refines_reward _ _ (split tx.meta b'|')

    Refines-confirmed :
        (app app' : App D) (tx : Tx) (tags : List Tag)
        → counters_of app'.state ≡ counters_of app.state
        → Refines btc_c app (confirm app' tx tags)
    Refines-confirmed app app' tx tags h =
        let (p, c) = refines_confirm app' tx tags in rw c (p ∙ ap bump h)

    Refines-confirm_v3 :
        (app : App D) (tx : Tx) (r : BtcMonMsg × Bool) → Refines btc_c app (confirm_v3 app tx r)
    Refines-confirm_v3 app tx (m, true) = refl
    Refines-confirm_v3 app tx (m, false) =
        elim (Bool-cases (str_eq m.btc_head_root app.state.latest_btcc_tx)) [
          | inl e ↦ rw e refl
          | inr e ↦ rw e (Refines-confirmed app (seen app m.btc_head_root) tx _ refl)
        ]

    Refines-btc_c : (app : App D) (tx : Tx) → Refines btc_c app (deliver_btc_c ext app tx)
    unfolding deliver_btc_c
    Refines-btc_c app tx = elim (Bool-cases (eqb_ℤ tx.version (pos 3))) [
      | inl e ↦ rw e (Refines-confirm_v3 app tx (ext.btc_mon_msg_of_json tx.tx_data))
      | inr e ↦ rw e (elim (Bool-cases (eqb_ℤ tx.version (pos 2))) [
        | inl f ↦ rw f (elim (Bool-cases (str_eq tx.tx_data app.state.latest_btcc_tx)) [
          | inl g ↦ rw g refl
          | inr g ↦ rw g (Refines-confirmed app (seen app tx.tx_data) tx _ refl)
        ])
        | inr f ↦ rw f (Refines-confirmed app app tx [] refl)
      ])
    ]

    Refines-plain :
        (app : App D) (raw : Str) (tx : Tx)
        → Refines chngstk app (deliver_chngstk app tx)
          × Refines cal app (deliver_cal app raw)
          × Refines btc_e app (deliver_btc_e app tx)
          × Refines btc_a app (deliver_btc_a ext app raw tx)
          × Refines fee app (deliver_fee app tx)
    unfolding deliver_chngstk deliver_cal deliver_btc_e deliver_btc_a deliver_fee
    Refines-plain app raw tx = ground arith

    Refines-kind :
        (k : TxKind) (app : App D) (raw : Str) (tx : Tx) {d : Delivery D}
        → deliver_kind ext ops k app raw tx ≡ returns d
        → Refines k app d
    unfolding deliver_kind
    Refines-kind val app raw tx e = Refines-val app tx e
    Refines-kind jwk app raw tx e = Refines-jwk app tx e
    Refines-kind chngstk app raw tx e =
        subst (Refines chngstk app) (returns-injective e) (Refines-plain app raw tx).0
    Refines-kind cal app raw tx e =
        subst (Refines cal app) (returns-injective e) (Refines-plain app raw tx).1
    Refines-kind btc_e app raw tx e =
        subst (Refines btc_e app) (returns-injective e) (Refines-plain app raw tx).2
    Refines-kind btc_a app raw tx e =
        subst (Refines btc_a app) (returns-injective e) (Refines-plain app raw tx).3
    Refines-kind btc_c app raw tx e =
        subst (Refines btc_c app) (returns-injective e) (Refines-btc_c app tx)
    Refines-kind fee app raw tx e =
        subst (Refines fee app) (returns-injective e) (Refines-plain app raw tx).4
    Refines-kind nist app raw tx e = subst (Refines nist app) (returns-injective e) refl
    Refines-kind drand app raw tx e = subst (Refines drand app) (returns-injective e) refl
    Refines-kind other app raw tx e = subst (Refines other app) (returns-injective e) refl

    -- A delivery that returns, of any transaction to any state, does to the three counters what the
    -- abstract counter does for its type and response code: the TxInt grows by one for VAL and CAL,
    -- and for CHNGSTK, BTC-A, BTC-C and JWK when accepted; CAL alone moves the other two.
    pub update_state_from_tx-refines :
        (app : App D) (raw_tx : Str) {d : Delivery D}
        → update_state_from_tx ext ops app raw_tx ≡ returns d
        → counters_of d.app.state
          ≡ count_step
              (kind_of (delivered_tx ext ops app raw_tx).tx_type)
              d.code
              (counters_of app.state)
    unfolding update_state_from_tx
    update_state_from_tx-refines app raw_tx e =
        let tx = delivered_tx ext ops app raw_tx in
        Refines-kind (kind_of tx.tx_type) app raw_tx tx e
