-- ===== src/Abci/Chain.antt =====
-- Every order of handlers and background work that Tendermint can drive the application through.
use chainpoint_core.Prelude.{
  ◌+◌, ◌-◌, pos_part, neg_part, ℤ, pos, negsuc, ◌≤ℤ◌, ◌<ℤ◌, inc64, int64_half, add64, wrap64, ◌+ℤ◌,
  Str, not, ◌&&◌, str_eq, split, Option, none, some, List, [], ◌∷◌, ◌≡◌, refl, ap, subst, sym, ◌∙◌,
  arith, returns, >>=-returns, returns-injective, Bool-cases, inl, inr,
}
use chainpoint_core.Types.{ValidatorUpdate}
use chainpoint_core.Externals.{Externals}
use chainpoint_core.LevelDb.{DbOps}
use chainpoint_core.LeaderElection.{Election}
use chainpoint_core.TxKind.{TxKind, val, chngstk, cal, btc_a, btc_c, jwk, kind_of}
use chainpoint_core.Abci.{App, Spawn, Code, ok}
use chainpoint_core.Abci.Deliver.{Delivery, delivered_tx, update_state_from_tx}
use chainpoint_core.Abci.Counters.{
  Counters, counters_of, bump, count_step, update_state_from_tx-refines,
}
use chainpoint_core.Abci.Block.{
  app_hash_of, begin_block, end_block, commit, start_anchoring, is_due, propose, propose_stake,
  vote_stake, save_state, set_state, check_vote_validator, check_vote_change_stake,
}
use chainpoint_core.Abci.Validators.{ValTx, ValError, validate_validator_tx}
use chainpoint_core.Strconv.{NumError, parse_int}
use chainpoint_core.Abci.Anchoring.{IsOrdered}

-- Below the largest int64 an increment of an integer that is not negative is the next integer.
inc64_next :
    (a : ℤ)
    → pos 0 ≤ℤ a
    → a <ℤ pos (int64_half - 1)
    → pos_part (inc64 a) + neg_part a ≡ neg_part (inc64 a) + pos_part a + 1
unfolding add64 wrap64 ◌+ℤ◌
inc64_next (pos n) h k = ground arith
inc64_next (negsuc n) h k = absurd (omega arith)

module _ (c : Counters) (o : IsOrdered c) (room : c.tx_int <ℤ pos (int64_half - 1)) where
  next_tx :
      pos_part (inc64 c.tx_int) + neg_part c.tx_int
      ≡ neg_part (inc64 c.tx_int) + pos_part c.tx_int + 1
  next_tx =
      let p = o.current in let q = o.cals in let r = o.all in inc64_next c.tx_int (omega arith) room

  next_current :
      pos_part (inc64 c.current_cal) + neg_part c.current_cal
      ≡ neg_part (inc64 c.current_cal) + pos_part c.current_cal + 1
  next_current = let q = o.cals in let r = o.all in inc64_next c.current_cal o.current (omega arith)

  bump-IsOrdered : IsOrdered (bump c)
  bump-IsOrdered = omega (arith, next_tx)

  cal-IsOrdered : (code : Code) → IsOrdered (count_step cal code c)
  cal-IsOrdered code = omega (arith, next_tx, next_current)

  -- No delivery takes the counters out of order, while the TxInt is below the largest int64.
  pub count_step-IsOrdered : (k : TxKind) (code : Code) → IsOrdered (count_step k code c)
  count_step-IsOrdered val code = bump-IsOrdered
  count_step-IsOrdered cal code = cal-IsOrdered code
  count_step-IsOrdered chngstk ok = bump-IsOrdered
  count_step-IsOrdered btc_a ok = bump-IsOrdered
  count_step-IsOrdered btc_c ok = bump-IsOrdered
  count_step-IsOrdered jwk ok = bump-IsOrdered
  count_step-IsOrdered _ _ = o

module _ {D : Type 0} (ext : Externals) (el : Election) (ops : DbOps D) where
  -- One handler runs, or a goroutine writes the state: none of them writes a counter.
  pub data Step : App D → App D → Type 0 where
    begun : (app : App D) → Step app (begin_block app)
    delivered :
        (app : App D) (raw_tx : Str) (d : Delivery D)
        → update_state_from_tx ext ops app raw_tx ≡ returns d
        → app.state.tx_int <ℤ pos (int64_half - 1)
        → Step app d.app
    ended :
        (app app' : App D) (spawned : List Spawn) (updates : List ValidatorUpdate)
        → end_block ext el app ≡ returns (app', spawned, updates)
        → Step app app'
    committed :
        (app app' : App D) (hash : Str) → commit ext ops app ≡ returns (app', hash) → Step app app'
    background : (app app' : App D) → counters_of app'.state ≡ counters_of app.state → Step app app'

  pub data Reach (app : App D) : App D → Type 0 where
    here : Reach app app
    next : {a b : App D} → Reach app a → Step a b → Reach app b

module _ {D : Type 0} (ext : Externals) (el : Election) where
  state_propose :
      (app : App D) (t : ValTx) (e : Option ValError) → (propose ext el app t e).0.state ≡ app.state
  state_propose app t none = ground arith
  state_propose app t (some e) = refl

  state_check_vote_validator :
      (app : App D) {r : App D × List Spawn}
      → check_vote_validator ext el app ≡ returns r
      → r.0.state ≡ app.state
  unfolding check_vote_validator
  state_check_vote_validator app e = elim (Bool-cases (str_eq app.config.proposed_val [])) [
    | inl b ↦ ap (λ x. x.0.state) (sym (returns-injective (rw b at e)))
    | inr b ↦
        let (t, p, q) =
          >>=-returns (validate_validator_tx ext app.config.proposed_val) _ (rw b at e) in
        ap (λ x. x.0.state) (sym (returns-injective q)) ∙ state_propose app t t.err
  ]

  state_vote_stake :
      (app : App D) (fields : List Str) → (vote_stake ext el app fields).0.state ≡ app.state
  state_vote_stake app (a ∷ b ∷ []) = state_propose_stake app (parse_int a) (parse_int b)
    where
      state_propose_stake :
          (app : App D) (a b : ℤ × Option NumError)
          → (propose_stake ext el app a b).0.state ≡ app.state
      state_propose_stake app (h, none) (s, none) = ground arith
      state_propose_stake app (h, none) (s, some e) = refl
      state_propose_stake app (h, some e) s = refl
  state_vote_stake app [] = refl
  state_vote_stake app (a ∷ []) = refl
  state_vote_stake app (a ∷ b ∷ c ∷ r) = refl

  state_check_vote_change_stake :
      (app : App D) → (check_vote_change_stake ext el app).0.state ≡ app.state
  unfolding check_vote_change_stake
  state_check_vote_change_stake app =
      elim (Bool-cases (app.state.app_ready && not (str_eq app.config.update_stake []))) [
        | inl b ↦ rw b (state_vote_stake app (split app.config.update_stake b':'))
        | inr b ↦ rw b refl
      ]

  start_anchoring_counters :
      (app : App D)
      → counters_of (start_anchoring app).0.state
        ≡ record (counters_of app.state) { current_cal = pos 0 }
  unfolding start_anchoring
  start_anchoring_counters app = elim (Bool-cases (is_due app && not app.state.chain_synced)) [
    | inl b ↦ rw b refl
    | inr b ↦ rw b refl
  ]

  end_block_counters :
      (app : App D) {r : App D × List Spawn × List ValidatorUpdate}
      → end_block ext el app ≡ returns r
      → counters_of r.0.state ≡ record (counters_of app.state) { current_cal = pos 0 }
  unfolding end_block
  end_block_counters app e =
      let app1 = (start_anchoring app).0 in
      let (r2, p, q) = >>=-returns (check_vote_validator ext el app1) _ e in
      ap (λ x. counters_of x.0.state) (sym (returns-injective q))
      ∙ ap counters_of (state_check_vote_change_stake r2.0 ∙ state_check_vote_validator app1 p)
      ∙ start_anchoring_counters app

module _ {D : Type 0} (ext : Externals) (ops : DbOps D) where
  save_counters :
      (app : App D) (j : Option Str) {r : App D}
      → save_state ext ops app j ≡ returns r
      → counters_of r.state ≡ counters_of app.state
  save_counters app none e = cc
  save_counters app (some bytes) e = ap (λ x. counters_of x.state) (sym (returns-injective e))

  commit_counters :
      (app : App D) {r : App D × Str}
      → commit ext ops app ≡ returns r
      → counters_of r.0.state ≡ counters_of app.state
  unfolding commit
  commit_counters app e =
      let (hash, p, q) = >>=-returns (app_hash_of app.state.height) _ e in
      let new =
        set_state app (record app.state { app_hash = hash; height = inc64 app.state.height }) in
      let (app', p', q') = >>=-returns (save_state ext ops new (ext.json_of_state new.state)) _ q in
      ap (λ x. counters_of x.0.state) (sym (returns-injective q'))
      ∙ save_counters new (ext.json_of_state new.state) p'

module _ {D : Type 0} (ext : Externals) (el : Election) (ops : DbOps D) where
  Step-IsOrdered :
      {a b : App D}
      → Step ext el ops a b
      → IsOrdered (counters_of a.state)
      → IsOrdered (counters_of b.state)
  unfolding begin_block
  Step-IsOrdered (begun app) o = o
  Step-IsOrdered (delivered app raw d e room) o =
      subst IsOrdered (sym (update_state_from_tx-refines ext ops app raw e)) (
        count_step-IsOrdered (counters_of app.state) o room
          (kind_of (delivered_tx ext ops app raw).tx_type) d.code)
  Step-IsOrdered (ended app app' spawned updates e) o =
      subst IsOrdered (sym (end_block_counters ext el app e))
        (ended_ordered (counters_of app.state) o)
    where
      ended_ordered : (c : Counters) → IsOrdered c → IsOrdered (record c { current_cal = pos 0 })
      ended_ordered c oc = omega arith
  Step-IsOrdered (committed app app' hash e) o =
      subst IsOrdered (sym (commit_counters ext ops app e)) o
  Step-IsOrdered (background app app' e) o = subst IsOrdered (sym e) o

  -- From an application whose counters are in order, whatever the handlers and goroutines that run,
  -- in whatever order, while no TxInt reaches the largest int64: the counters stay in order.
  pub Reach-IsOrdered :
      {a b : App D}
      → IsOrdered (counters_of a.state)
      → Reach ext el ops a b
      → IsOrdered (counters_of b.state)
  Reach-IsOrdered o here = o
  Reach-IsOrdered o (next r st) = Step-IsOrdered st (Reach-IsOrdered o r)
