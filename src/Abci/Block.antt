-- ===== src/Abci/Block.antt =====
-- abci/abci.go and abci/anchor.go: the handlers that Tendermint calls around the deliveries of a
-- block; the votes of abci/validators.go and abci/stakingidentity.go.
use chainpoint_core.Prelude.{
  pad, ℕ, zero, suc, ◌+◌, ◌*◌, ◌/◌, ◌%◌, ℤ, pos, negsuc, Str, str, Bool, true, false, not, ◌&&◌,
  Option, none, some, List, [], ◌∷◌, ◌++◌, split, str_eq, ltb, ltb_ℤ, eqb_ℤ, sub64, inc64,
  if◌then◌else◌, Run, returns, panics, ◌>>=◌,
}
use chainpoint_core.Types.{AnchorState, ValidatorUpdate}
use chainpoint_core.Externals.{Externals}
use chainpoint_core.LevelDb.{DbOps}
use chainpoint_core.Strconv.{NumError, parse_int}
use chainpoint_core.LeaderElection.{Election, elect_validator_as_leader}
use chainpoint_core.Abci.{App, Spawn}
use chainpoint_core.Abci.Validators.{ValTx, ValError, validate_validator_tx}

-- binary.PutVarint: the zigzag value, seven bits to a byte, the low ones first.
abbrev pub zigzag : ℤ → ℕ
zigzag (pos n) = n * 2
zigzag (negsuc n) = n * 2 + 1

-- The loop of PutUvarint into a buffer with room for `room` bytes; a write past it panics.
unfoldable pub put_uvarint : ℕ → ℕ → Run Str
put_uvarint zero x = panics
put_uvarint (suc room) x = elim (ltb x 128) [
  | true ↦ returns (x ∷ [])
  | false ↦ put_uvarint room (x / 128) >>= λ rest. returns ((x % 128 + 128) ∷ rest)
]

-- The 8 bytes of the application hash for a height.
unfoldable pub app_hash_of : ℤ → Run Str
unfolding put_uvarint pad
app_hash_of height = put_uvarint 8 (zigzag height) >>= λ bs. returns (pad 8 bs)

abbrev pub when : Bool → List Spawn → List Spawn
when b spawned = if b then spawned else []

-- Whether there are CALs to anchor that do not belong to the current block.
abbrev pub has_cals : AnchorState → Bool
has_cals s = ltb_ℤ s.current_cal_ints (sub64 s.latest_cal_tx_int s.begin_cal_tx_int)

module _ {D : Type 0} where
  abbrev pub set_state : App D → AnchorState → App D
  set_state app state = record app { state = state }

  -- BeginBlock
  unfoldable pub begin_block : App D → App D
  begin_block app = record app { val_updates = [] }

  -- Whether enough blocks have passed since the last BTC-A.
  abbrev pub is_due : App D → Bool
  is_due app =
      app.config.do_anchor
      && ltb_ℤ app.config.anchor_interval (sub64 app.state.height app.state.latest_btca_height)

  -- The goroutines that StartAnchoring starts.
  unfoldable pub anchoring_spawned : App D → List Spawn
  anchoring_spawned app =
      let s = app.state in
      when (s.chain_synced && app.config.do_cal) (Spawn.anchor_calendar s.height ∷ [])
      ++ when (is_due app && (s.chain_synced && has_cals s)) (
          Spawn.anchor_to_chain s.begin_cal_tx_int (sub64 s.latest_cal_tx_int s.current_cal_ints)
          ∷ [])

  -- StartAnchoring
  unfoldable pub start_anchoring : App D → App D × List Spawn
  unfolding anchoring_spawned
  start_anchoring app =
      let s = app.state in
      let s' =
        if is_due app && not s.chain_synced
        then record s { end_cal_tx_int = s.latest_cal_tx_int }
        else s in
      (set_state app (record s' { current_cal_ints = pos 0 }), anchoring_spawned app)

  module _ (ext : Externals) (el : Election) where
    abbrev pub propose : App D → ValTx → Option ValError → App D × List Spawn
    propose app t (some e) = (app, [])
    propose app t none =
        if eqb_ℤ t.block_height app.state.height
        then (
          record app { pending_validator = app.config.proposed_val },
          when (elect_validator_as_leader el (pos 1) [] app.state app.config).0
              (Spawn.broadcast_val app.config.proposed_val ∷ []),
        )
        else (app, [])

    -- CheckVoteValidator
    unfoldable pub check_vote_validator : App D → Run (App D × List Spawn)
    check_vote_validator app =
        if str_eq app.config.proposed_val []
        then returns (app, [])
        else validate_validator_tx ext app.config.proposed_val >>= λ t.
            returns (propose app t t.err)

    abbrev pub propose_stake :
        App D → ℤ × Option NumError → ℤ × Option NumError → App D × List Spawn
    propose_stake app (height, none) (stake, none) =
        if not (eqb_ℤ stake app.config.stake_per_core) && eqb_ℤ height app.state.height
        then (
          record app { pending_change_stake = stake },
          when (elect_validator_as_leader el (pos 1) [] app.state app.config).0
              (Spawn.broadcast_chngstk stake ∷ []),
        )
        else (app, [])
    propose_stake app (height, none) (stake, some e) = (app, [])
    propose_stake app (height, some e) s = (app, [])

    abbrev pub vote_stake : App D → List Str → App D × List Spawn
    vote_stake app (height_s ∷ stake_s ∷ []) =
        propose_stake app (parse_int height_s) (parse_int stake_s)
    vote_stake app _ = (app, [])

    -- CheckVoteChangeStake
    unfoldable pub check_vote_change_stake : App D → App D × List Spawn
    check_vote_change_stake app =
        if app.state.app_ready && not (str_eq app.config.update_stake [])
        then vote_stake app (split app.config.update_stake b':')
        else (app, [])

    -- The monitors that EndBlock starts when the chain is synced.
    abbrev pub monitors : App D → List Spawn
    monitors app = when app.state.chain_synced (
        if app.config.do_anchor
        then Spawn.monitor_chain ∷ Spawn.prune_old_state ∷ []
        else Spawn.monitor_blocks ∷ [])

    -- EndBlock: the new state, the goroutines in the order of their start, and the response.
    unfoldable pub end_block : App D → Run (App D × List Spawn × List ValidatorUpdate)
    unfolding start_anchoring
    end_block app =
        let polls = when app.state.chain_synced (Spawn.beacon_monitor ∷ Spawn.fee_monitor ∷ []) in
        let (app1, anchoring) = start_anchoring app in
        check_vote_validator app1 >>= λ (app2, val_vote).
        let (app3, stake_vote) = check_vote_change_stake app2 in
        returns (
          app3,
          polls ++ (anchoring ++ (monitors app1 ++ (val_vote ++ stake_vote))),
          app3.val_updates,
        )

  module _ (ext : Externals) (ops : DbOps D) where
    -- saveState under the key "chainpoint"; a state that JSON cannot hold panics.
    abbrev pub save_state : App D → Option Str → Run (App D)
    save_state app none = panics
    save_state app (some bytes) =
        returns (record app { db = (ops.set app.db (str "chainpoint") bytes).0 })

    -- Commit
    unfoldable pub commit : App D → Run (App D × Str)
    unfolding app_hash_of
    commit app = app_hash_of app.state.height >>= λ hash.
        let app' =
          set_state app (record app.state { app_hash = hash; height = inc64 app.state.height }) in
        save_state app' (ext.json_of_state app'.state) >>= λ app''. returns (app'', hash)
