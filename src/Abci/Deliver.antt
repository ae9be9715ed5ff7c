-- ===== src/Abci/Deliver.antt =====
-- abci/transactions.go: the delivery of a transaction.
use chainpoint_core.Prelude.{
  ◌>>=◌, ℤ, pos, Str, str, Bool, true, false, Option, none, some, List, [], ◌∷◌, ◌++◌, split,
  str_eq, eqb_ℤ, inc64, if◌then◌else◌, Run, returns,
}
use chainpoint_core.Types.{Tx, AnchorState, BtcTxMsg, BtcMonMsg}
use chainpoint_core.Externals.{Externals}
use chainpoint_core.LevelDb.{DbOps}
use chainpoint_core.Strconv.{NumError, parse_int, int64_to_byte}
use chainpoint_core.TxKind.{
  TxKind, val, chngstk, cal, btc_e, btc_a, btc_c, nist, drand, fee, jwk, other, kind_of,
}
use chainpoint_core.Util.Tx.{Error, decode_tx, decode_tx_and_verify_sig}
use chainpoint_core.TxRateLimiter.{increment_success_anchor}
use chainpoint_core.Abci.{App, Spawn, Code, ok, unauthorized, Tag}
use chainpoint_core.Abci.Validators.{exec_validator_tx}
use chainpoint_core.Abci.Identity.{save_identity}

-- What a case of the switch leaves: the application, the response's code, the tags, the goroutines.
pub record Delivery (D : Type 0) : Type 0 where
  pub app : App D
  pub code : Code
  pub tags : List Tag
  pub spawned : List Spawn

-- incrementTxInt
unfoldable pub increment_tx_int : AnchorState → List Tag → AnchorState × List Tag
increment_tx_int state tags =
    let n = inc64 state.tx_int in
    (record state { tx_int = n }, tags ++ (str "TxInt", int64_to_byte n) ∷ [])

module _ {D : Type 0} where
  abbrev pub with_state : App D → AnchorState → App D
  with_state app state = record app { state = state }

  -- `break` before the response is set
  abbrev pub refused : App D → Delivery D
  refused app = record { app = app; code = unauthorized; tags = []; spawned = [] }

  -- case "CHNGSTK"
  abbrev set_stake : App D → ℤ × Option NumError → Delivery D
  set_stake app (stake, some e) = refused app
  set_stake app (stake, none) =
      let (state, tags) = increment_tx_int app.state [] in
      record {
        app = record app { config = record app.config { stake_per_core = stake }; state = state };
        code = ok;
        tags = tags ++ (str "CHANGE", str "STAKE") ∷ [];
        spawned = [];
      }

  unfoldable pub deliver_chngstk : App D → Tx → Delivery D
  unfolding increment_tx_int
  deliver_chngstk app tx = set_stake app (parse_int tx.tx_data)

  -- case "CAL"
  unfoldable pub deliver_cal : App D → Str → Delivery D
  unfolding increment_tx_int
  deliver_cal app raw_tx =
      let (state, tags) = increment_tx_int app.state [] in
      record {
        app = with_state app (record state {
          latest_cal_tx_int = state.tx_int;
          current_cal_ints = inc64 state.current_cal_ints;
        });
        code = ok;
        tags = tags;
        spawned = if app.state.chain_synced then Spawn.expire_cal_hash raw_tx ∷ [] else [];
      }

  -- case "BTC-E"
  unfoldable pub deliver_btc_e : App D → Tx → Delivery D
  deliver_btc_e app tx = record {
    app =
        with_state app
          (record app.state { latest_err_root = tx.tx_data; last_error_core_id = tx.core_id });
    code = ok;
    tags = [];
    spawned = [];
  }

  abbrev anchor_message : App D → Str → Tx → BtcTxMsg × Bool → Delivery D
  anchor_message app raw_tx tx (btca, true) = refused app
  anchor_message app raw_tx tx (btca, false) =
      let started =
        if app.state.chain_synced
        then app.state
        else record app.state { begin_cal_tx_int = btca.end_cal_tx_int } in
      let (state, tags) =
        increment_tx_int
          (record started { latest_btca_tx = raw_tx; latest_btca_height = inc64 started.height })
          [] in
      record {
        app = with_state app (record state { latest_btca_tx_int = state.tx_int });
        code = ok;
        tags = tags ++ (str "BTCTX", btca.btc_tx_id) ∷ [];
        spawned = if app.state.chain_synced then Spawn.begin_tx_monitor tx.tx_data ∷ [] else [];
      }

  abbrev set_fee : App D → ℤ × Option NumError → Delivery D
  set_fee app (i, some e) = refused app
  set_fee app (i, none) = record {
    app = record app {
      state = record app.state { latest_btc_fee = i; last_btc_fee_height = app.state.height };
      ln_last_fee = i;
    };
    code = ok;
    tags = [];
    spawned = [];
  }

  -- case "FEE"
  unfoldable pub deliver_fee : App D → Tx → Delivery D
  deliver_fee app tx = set_fee app (parse_int tx.tx_data)

  -- The end of case "BTC-C"; `strings.Split` returns at least one field.
  abbrev pub reward : App D → List Tag → List Str → Delivery D
  reward app tags [] = record { app = app; code = ok; tags = tags; spawned = [] }
  reward app tags (core ∷ rest) = record {
    app =
        with_state app
          (increment_success_anchor core (record app.state { last_anchor_core_id = core })).0;
    code = ok;
    tags = tags;
    spawned = if app.state.chain_synced then Spawn.anchor_reward core ∷ [] else [];
  }

  unfoldable pub confirm : App D → Tx → List Tag → Delivery D
  unfolding increment_tx_int
  confirm app tx first_tags =
      let (state, tags) = increment_tx_int app.state first_tags in
      reward
        (with_state app (record state {
          latest_btcc_tx_int = state.tx_int;
          latest_btcc_height = inc64 state.height;
        }))
        tags (split tx.meta b'|')

  abbrev pub seen : App D → Str → App D
  seen app root = with_state app (record app.state { latest_btcc_tx = root })

  abbrev pub confirm_v3 : App D → Tx → BtcMonMsg × Bool → Delivery D
  confirm_v3 app tx (btcc, true) = refused app
  confirm_v3 app tx (btcc, false) =
      if str_eq btcc.btc_head_root app.state.latest_btcc_tx
      then refused app
      else confirm (seen app btcc.btc_head_root) tx (
          (str "BTCC", btcc.btc_head_root)
          ∷ (str "BTCCTX", btcc.btc_tx_id)
          ∷ (str "BTCCBH", int64_to_byte btcc.btc_head_height)
          ∷ [])

  module _ (ext : Externals) where
    -- case "BTC-A"
    unfoldable pub deliver_btc_a : App D → Str → Tx → Delivery D
    unfolding increment_tx_int
    deliver_btc_a app raw_tx tx = anchor_message app raw_tx tx (ext.btc_tx_msg_of_json tx.tx_data)

    -- case "BTC-C"
    unfoldable pub deliver_btc_c : App D → Tx → Delivery D
    deliver_btc_c app tx =
        if eqb_ℤ tx.version (pos 3)
        then confirm_v3 app tx (ext.btc_mon_msg_of_json tx.tx_data)
        else if eqb_ℤ tx.version (pos 2)
        then (if str_eq tx.tx_data app.state.latest_btcc_tx
            then refused app
            else confirm (seen app tx.tx_data) tx ((str "BTCC", tx.tx_data) ∷ []))
        else confirm app tx []

    abbrev pub saved : App D → AnchorState × Option Error → Delivery D
    saved app (state, some e) = refused (with_state app state)
    saved app (state, none) =
        let (state', tags) = increment_tx_int state [] in
        record {
          app = with_state app state';
          code = ok;
          tags = tags ++ (str "CORE", str "NEW") ∷ [];
          spawned = [];
        }

    -- case "JWK"
    unfoldable pub deliver_jwk : App D → Tx → Run (Delivery D)
    unfolding increment_tx_int
    deliver_jwk app tx = do r ← save_identity ext app.jwk_kid tx app.state; returns (saved app r)

    module _ (ops : DbOps D) where
      abbrev pub val_done : List Tag → App D × Code → Delivery D
      val_done tags (app, c) = record { app = app; code = c; tags = tags; spawned = [] }

      -- case "VAL"
      unfoldable pub deliver_val : App D → Tx → Run (Delivery D)
      unfolding increment_tx_int
      deliver_val app tx =
          let (state, tags) = increment_tx_int app.state [] in
          do
            r ← exec_validator_tx ext ops tx.tx_data (with_state app state)
            returns (val_done tags r)

      abbrev pub just_ok : App D → Delivery D
      just_ok app = record { app = app; code = ok; tags = []; spawned = [] }

      -- The switch of updateStateFromTx.
      unfoldable pub deliver_kind : TxKind → App D → Str → Tx → Run (Delivery D)
      deliver_kind val app raw_tx tx = deliver_val app tx
      deliver_kind chngstk app raw_tx tx = returns (deliver_chngstk app tx)
      deliver_kind cal app raw_tx tx = returns (deliver_cal app raw_tx)
      deliver_kind btc_e app raw_tx tx = returns (deliver_btc_e app tx)
      deliver_kind btc_a app raw_tx tx = returns (deliver_btc_a app raw_tx tx)
      deliver_kind btc_c app raw_tx tx = returns (deliver_btc_c app tx)
      deliver_kind nist app raw_tx tx = returns (just_ok app)
      deliver_kind drand app raw_tx tx = returns (just_ok app)
      deliver_kind fee app raw_tx tx = returns (deliver_fee app tx)
      deliver_kind jwk app raw_tx tx = deliver_jwk app tx
      deliver_kind other app raw_tx tx = returns (refused app)

      -- The transaction that the switch is on; the error of the decoding is only logged.
      unfoldable pub delivered_tx : App D → Str → Tx
      delivered_tx app raw_tx =
          if app.state.chain_synced
          then (decode_tx_and_verify_sig ext raw_tx app.state.core_keys).0
          else (decode_tx ext raw_tx).0

      -- updateStateFromTx, which DeliverTx calls; the one event has the type of the transaction.
      unfoldable pub update_state_from_tx : App D → Str → Run (Delivery D)
      update_state_from_tx app raw_tx =
          let tx = delivered_tx app raw_tx in deliver_kind (kind_of tx.tx_type) app raw_tx tx
