-- ===== src/Anchor/Ranges.antt =====
-- How AnchorToChain (anchor/bitcoin/bitcoinanchor.go) moves the range of CALs to anchor.
use chainpoint_core.Prelude.{
  ℤ, Str, str, str_eq, Bool, true, false, Bool-cases, inl, inr, Option, none, some, List, [], ◌∷◌,
  ◌≡◌, refl, if◌then◌else◌, Run, returns,
}
use chainpoint_core.Types.{AnchorState, AnchorConfig, BtcAgg}
use chainpoint_core.Externals.{Externals}
use chainpoint_core.LevelDb.{DbOps, StringsJson}
use chainpoint_core.LevelDb.KvStore.{StoreError, append}
use chainpoint_core.LeaderElection.{Election}
use chainpoint_core.Merkle.{MerkleOps}
use chainpoint_core.Rpc.{TmClient}
use chainpoint_core.Anchor.{
  AnchorError, AnchorJson, LightningClient, Engine, Sent, text_or_empty, check_btc_tx_ids_key,
  set_state, get_tree_from_cal_range, must_send, lead, check_of, watched, watch, elected, with_tree,
  with_leaders, send_btc_tx, anchor_to_chain,
}

-- Without an error the range moves to its end, and the height of the anchor is the current one. With
-- an error they stay, so that the range is anchored again.
abbrev pub Advances : {D : Type 0} → AnchorState → ℤ → Engine D × Sent × Option AnchorError → Type 0
Advances s end_tx (eng, sent, none) =
    (eng.state.begin_cal_tx_int ≡ end_tx)
    × (eng.state.end_cal_tx_int ≡ end_tx)
    × (eng.state.latest_btca_height ≡ s.height)
Advances s end_tx (eng, sent, some e) =
    (eng.state.begin_cal_tx_int ≡ s.begin_cal_tx_int)
    × (eng.state.end_cal_tx_int ≡ s.end_cal_tx_int)
    × (eng.state.latest_btca_height ≡ s.latest_btca_height)

module _ {D : Type 0} (ops : DbOps D) (js : StringsJson) (mt : MerkleOps) (ext : Externals)
    (uuid_of : Str → Str) (tm : TmClient) (ln : LightningClient) (aj : AnchorJson) (el : Election)
    (fails : Str → Str → Bool) (config : AnchorConfig)
    (sends : (kind data_ : Str) → fails kind data_ ≡ false) where
  -- What AnchorToChain returns.
  abbrev Returned : AnchorState → ℤ → Run (Engine D × Sent × Option AnchorError) → Type 0
  Returned s end_tx run =
      (result : Engine D × Sent × Option AnchorError) × (run ≡ returns result)
      × Advances s end_tx result

  must_send_returns :
      (kind data_ : Str)
      → must_send ops js mt ext uuid_of tm ln aj el fails config kind data_
        ≡ returns ((kind, data_) ∷ [])
  must_send_returns kind data_ = rw (sends kind data_) refl

  lead_returns :
      (root : Str) (m : Str × Option AnchorError)
      → (sent : Sent) × (lead ops js mt ext uuid_of tm ln aj el fails config root m ≡ returns sent)
  lead_returns root (btca, none) = (_, must_send_returns (str "BTC-A") btca)
  lead_returns root (btca, some e) = (
    (str "BTC-E", root) ∷ (str "BTC-A", btca) ∷ [],
    rw (must_send_returns (str "BTC-E") root, must_send_returns (str "BTC-A") btca) refl,
  )

  watched_lem :
      (eng : Engine D) (end_tx : ℤ) (sent : Sent) (r : D × Option StoreError)
      → let (after, e) = watched ops js mt ext uuid_of tm ln aj el fails config eng end_tx r in
        Advances eng.state end_tx (after, sent, e)
  watched_lem eng end_tx sent (d, some e) = (refl, refl, refl)
  watched_lem eng end_tx sent (d, none) = (refl, refl, refl)

  -- The broadcasts before the range is watched: none but for the leader.
  maybe_lead :
      (am_leader : Bool) (root : Str) (m : Str × Option AnchorError)
      → (sent : Sent) × ((if am_leader
            then lead ops js mt ext uuid_of tm ln aj el fails config root m
            else returns [])
          ≡ returns sent)
  maybe_lead true root m = lead_returns root m
  maybe_lead false root m = ([], refl)

  with_tree_lem :
      (eng : Engine D) (am_leader : Bool) (leader : Str) (start end_tx : ℤ)
      (t : BtcAgg × Option AnchorError)
      → Returned eng.state end_tx (
          with_tree ops js mt ext uuid_of tm ln aj el fails config eng am_leader leader start end_tx
            t)
  unfolding watch
  with_tree_lem eng am_leader leader start end_tx (agg, some e) = (_, refl, (refl, refl, refl))
  with_tree_lem eng am_leader leader start end_tx (agg, none) =
      elim (Bool-cases (str_eq agg.anchor_btc_agg_root [])) [
        | inl empty ↦ rw empty (_, refl, (refl, refl, refl))
        | inr full ↦
            let root = agg.anchor_btc_agg_root in
            let (sent, returned) =
              maybe_lead am_leader root (send_btc_tx ln aj agg eng.state.height start end_tx) in
            let eng' =
              set_state eng
                (elected ops js mt ext uuid_of tm ln aj el fails config eng.state leader root) in
            rw (full, returned)
              (
                _,
                refl,
                watched_lem eng' end_tx sent (
                    append ops js eng'.db check_btc_tx_ids_key (
                      text_or_empty (
                        aj.anchor_range.encode (
                          check_of ops js mt ext uuid_of tm ln aj el fails config eng'.state
                            am_leader root start end_tx)))),
              )
      ]

  with_leaders_lem :
      (eng : Engine D) (start end_tx : ℤ) (leaders : Bool × List Str)
      (t : BtcAgg × Option AnchorError)
      → get_tree_from_cal_range mt ext uuid_of tm start end_tx ≡ returns t
      → Returned eng.state end_tx
          (with_leaders ops js mt ext uuid_of tm ln aj el fails config eng start end_tx leaders)
  with_leaders_lem eng start end_tx (am_leader, []) t e = (_, refl, (refl, refl, refl))
  with_leaders_lem eng start end_tx (am_leader, leader ∷ others) t e =
      rw e (with_tree_lem eng am_leader leader start end_tx t)

  -- When the tree of the range can be made and no broadcast fails, AnchorToChain returns, whoever
  -- leads. Without an error the next range begins where this one ended, and the height of the last
  -- anchor is the current one; with an error both stay as they were, so that the CALs of the range
  -- stay to be anchored.
  pub anchor_to_chain-Advances :
      (start end_tx : ℤ) (eng : Engine D) (t : BtcAgg × Option AnchorError)
      → get_tree_from_cal_range mt ext uuid_of tm start end_tx ≡ returns t
      → (result : Engine D × Sent × Option AnchorError) × (anchor_to_chain ops js mt ext uuid_of tm
            ln aj el fails config start end_tx eng
          ≡ returns result)
        × Advances eng.state end_tx result
  unfolding anchor_to_chain
  anchor_to_chain-Advances start end_tx eng t e =
      elim (Bool-cases (str_eq config.election_mode (str "test"))) [
        | inl test ↦ rw test (with_leaders_lem _ start end_tx _ t e)
        | inr other ↦ rw other (with_leaders_lem _ start end_tx _ t e)
      ]
