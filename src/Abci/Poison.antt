-- ===== src/Abci/Poison.antt =====
-- The transactions whose delivery panics (abci/transactions.go, abci/validators.go and SetIdentity of
-- abci/stakingidentity.go, which ignores the error of DecodePubKey).
use chainpoint_core.Prelude.{
  ◌>>=◌, pos, eqb_ℤ, Str, Bool, true, false, Bool-cases, inl, inr, Option, none, some, List, [],
  ◌∷◌, length, split, ◌≡◌, ◌≢◌, ◌↔◌, ◌⊎◌, refl, arith, Run, returns, panics,
}
use chainpoint_core.Types.{Tx, AnchorState, Jwk, PublicKey, ValidatorUpdate}
use chainpoint_core.Externals.{Externals}
use chainpoint_core.LevelDb.{DbOps}
use chainpoint_core.TxKind.{
  TxKind, val, chngstk, cal, btc_e, btc_a, btc_c, nist, drand, fee, jwk, other, kind_of,
}
use chainpoint_core.Abci.{App}
use chainpoint_core.Abci.Validators.{
  ValTx, ValError, by_fields, validate_validator_tx, exec_validator_tx, exec_parsed,
  update_validator, remove_validator, put_validator, val_key,
}
use chainpoint_core.Abci.Identity.{
  decode_pub_key, set_identity, save_identity, store_identity, with_jwk, mark_staked,
}
use chainpoint_core.Util.Tx.{Error}
use chainpoint_core.Abci.Deliver.{
  delivered_tx, update_state_from_tx, deliver_kind, deliver_jwk, deliver_val, saved, val_done,
  with_state, increment_tx_int,
}

returned : {A : Type 0} {a : A} → returns a ≢ panics
returned e = cc

-- A step after which nothing panics.
then_returns :
    {A B : Type 0} (m : Run A) (f : A → B) → ((m >>= λ a. returns (f a)) ≡ panics) ↔ (m ≡ panics)
then_returns (returns a) f = (λ e. absurd (returned e), λ e. absurd (returned e))
then_returns panics f = (λ e. refl, λ e. refl)

both {ℓ κ μ} : {A : Type ℓ} {B : Type κ} {C : Type μ} → (A ↔ B) → (B ↔ C) → A ↔ C
both f g = (λ a. g.0 (f.0 a), λ c. f.1 (g.1 c))

Run-cases : {A : Type 0} (m : Run A) → ((a : A) × (m ≡ returns a)) ⊎ (m ≡ panics)
Run-cases (returns a) = inl (a, refl)
Run-cases panics = inr refl

-- Whether DecodePubKey returned a key.
abbrev pub gives_key : Run (Option PublicKey) → Bool
gives_key (returns (some k)) = true
gives_key r = false

by_fields-panics : (ext : Externals) (l : List Str) → (by_fields ext l ≡ panics) ↔ (length l ≡ 2)
by_fields-panics ext [] = (λ e. absurd (returned e), λ e. cc)
by_fields-panics ext (a ∷ []) = (λ e. absurd (returned e), λ e. cc)
by_fields-panics ext (a ∷ b ∷ []) = (λ e. refl, λ e. refl)
by_fields-panics ext (a ∷ b ∷ c ∷ []) = (λ e. absurd (returned e), λ e. cc)
by_fields-panics ext (a ∷ b ∷ c ∷ d ∷ []) = (λ e. absurd (returned e), λ e. cc)
by_fields-panics ext (a ∷ b ∷ c ∷ d ∷ x ∷ l) =
    (λ e. absurd (returned e), λ e. absurd (omega (arith, e)))

module _ (ext : Externals) {D : Type 0} (ops : DbOps D) where
  -- A removal of a validator for which the database fails.
  abbrev pub RemovalFails : App D → ValTx → Type 0
  RemovalFails app t =
      (t.err ≡ none)
      × (eqb_ℤ t.power (pos 0) ≡ true)
      × ((ops.get app.db (val_key ext ops t.pubkey)).1 ≡ true)

  remove_validator-panics :
      (v : ValidatorUpdate) (app : App D) (r : Option Str × Bool)
      → (remove_validator ext ops v app r ≡ panics) ↔ (r.1 ≡ true)
  remove_validator-panics v app (found, true) = (λ e. refl, λ e. refl)
  remove_validator-panics v app (none, false) = (λ e. absurd (returned e), λ e. cc)
  remove_validator-panics v app (some x, false) = (λ e. absurd (returned e), λ e. cc)

  put_validator_returns :
      (v : ValidatorUpdate) (app : App D) (o : Option Str) → put_validator ext ops v app o ≢ panics
  put_validator_returns v app none = returned
  put_validator_returns v app (some x) = returned

  update_validator-panics :
      (v : ValidatorUpdate) (app : App D)
      → (update_validator ext ops v app ≡ panics)
        ↔ ((eqb_ℤ v.power (pos 0) ≡ true) × ((ops.get app.db (val_key ext ops v.pub_key)).1 ≡ true))
  unfolding update_validator
  update_validator-panics v app =
      let found = ops.get app.db (val_key ext ops v.pub_key) in
      elim (Bool-cases (eqb_ℤ v.power (pos 0))) [
        | inl e ↦
            let (there, back) = remove_validator-panics v app found in
            rw (update_validator, e) (λ q. (refl, there q), λ (z, g). back g)
        | inr e ↦
            rw (update_validator, e)
              (
                λ q. absurd (put_validator_returns v app (ext.write_validator_update v) q),
                λ (z, g). cc,
              )
      ]

  exec_parsed-panics :
      (app : App D) (t : ValTx) (e : Option ValError)
      → (exec_parsed ext ops app t e ≡ panics) ↔ (
          (e ≡ none)
          × (eqb_ℤ t.power (pos 0) ≡ true)
          × ((ops.get app.db (val_key ext ops t.pubkey)).1 ≡ true))
  exec_parsed-panics app t (some e) = (λ q. absurd (returned q), λ (n, p, g). cc)
  exec_parsed-panics app t none =
      let (there, back) =
        update_validator-panics (record { pub_key = t.pubkey; power = t.power }) app in
      (λ q. let (p, g) = there q in (refl, p, g), λ (n, p, g). back (p, g))

  -- What makes a delivery of a kind panic.
  abbrev pub Poisons : TxKind → App D → Tx → Type 0
  Poisons jwk app tx =
      ((ext.jwk_of_json tx.tx_data).1 ≡ false) × (gives_key (decode_pub_key ext tx) ≡ false)
  Poisons val app tx =
      (length (split tx.tx_data b'!') ≡ 2)
      ⊎ ((t : ValTx) × (validate_validator_tx ext tx.tx_data ≡ returns t) × RemovalFails app t)
  Poisons k app tx = ⊥

  exec_validator_tx-panics :
      (app : App D) (tx : Tx)
      → (exec_validator_tx ext ops tx.tx_data app ≡ panics) ↔ Poisons val app tx
  unfolding exec_validator_tx validate_validator_tx
  exec_validator_tx-panics app tx = (there, back)
    where
      fields :
          (validate_validator_tx ext tx.tx_data ≡ panics) ↔ (length (split tx.tx_data b'!') ≡ 2)
      fields = by_fields-panics ext (split tx.tx_data b'!')

      there : exec_validator_tx ext ops tx.tx_data app ≡ panics → Poisons val app tx
      there q = elim (Run-cases (validate_validator_tx ext tx.tx_data)) [
        | inl (t, e) ↦
            inr (t, e, (exec_parsed-panics app t t.err).0 (rw (exec_validator_tx, e) at q))
        | inr e ↦ inl (fields.0 e)
      ]

      back : Poisons val app tx → exec_validator_tx ext ops tx.tx_data app ≡ panics
      back (inl two) = rw (exec_validator_tx, fields.1 two) refl
      back (inr (t, e, r)) = rw (exec_validator_tx, e) ((exec_parsed-panics app t t.err).1 r)

  set_identity-panics :
      (tx : Tx) (state : AnchorState)
      → (set_identity ext tx state ≡ panics)
        ↔ (((ext.jwk_of_json tx.tx_data).1 ≡ false) × (gives_key (decode_pub_key ext tx) ≡ false))
  unfolding set_identity store_identity
  set_identity-panics tx state = parsed (ext.jwk_of_json tx.tx_data)
    where
      after_key : Jwk → Option PublicKey → Run (AnchorState × Jwk × Option Error)
      after_key j key = store_identity ext tx j state key >>= λ s. returns (s, j, none)

      stored :
          (m : Run (Option PublicKey)) (j : Jwk)
          → ((m >>= after_key j) ≡ panics) ↔ (gives_key m ≡ false)
      stored panics j = (λ e. refl, λ e. refl)
      stored (returns none) j = (λ e. refl, λ e. refl)
      stored (returns (some k)) j = (λ e. absurd (returned e), λ e. cc)

      parsed :
          (p : Jwk × Bool)
          → (with_jwk ext tx state p ≡ panics)
            ↔ ((p.1 ≡ false) × (gives_key (decode_pub_key ext tx) ≡ false))
      parsed (j, true) = (λ e. absurd (returned e), λ (n, g). cc)
      parsed (j, false) =
          let (there, back) = stored (decode_pub_key ext tx) j in
          (λ e. (refl, there e), λ (n, g). back g)

  deliver_jwk-panics :
      (app : App D) (tx : Tx) → (deliver_jwk ext app tx ≡ panics) ↔ Poisons jwk app tx
  unfolding deliver_jwk save_identity set_identity
  deliver_jwk-panics app tx =
      both (then_returns (save_identity ext app.jwk_kid tx app.state) (saved ext app)) (
        both (then_returns (set_identity ext tx app.state) (mark_staked ext app.jwk_kid))
          (set_identity-panics tx app.state))

  deliver_val-panics :
      (app : App D) (tx : Tx) → (deliver_val ext ops app tx ≡ panics) ↔ Poisons val app tx
  unfolding deliver_val
  deliver_val-panics app tx =
      let (state, tags) = increment_tx_int app.state [] in
      both
        (then_returns (exec_validator_tx ext ops tx.tx_data (with_state app state))
          (val_done ext ops tags))
        (exec_validator_tx-panics (with_state app state) tx)

  deliver_kind-panics :
      (k : TxKind) (app : App D) (raw_tx : Str) (tx : Tx)
      → (deliver_kind ext ops k app raw_tx tx ≡ panics) ↔ Poisons k app tx
  unfolding deliver_kind
  deliver_kind-panics val app raw_tx tx = deliver_val-panics app tx
  deliver_kind-panics jwk app raw_tx tx = deliver_jwk-panics app tx
  deliver_kind-panics chngstk app raw_tx tx = (λ e. absurd (returned e), λ e. absurd e)
  deliver_kind-panics cal app raw_tx tx = (λ e. absurd (returned e), λ e. absurd e)
  deliver_kind-panics btc_e app raw_tx tx = (λ e. absurd (returned e), λ e. absurd e)
  deliver_kind-panics btc_a app raw_tx tx = (λ e. absurd (returned e), λ e. absurd e)
  deliver_kind-panics btc_c app raw_tx tx = (λ e. absurd (returned e), λ e. absurd e)
  deliver_kind-panics nist app raw_tx tx = (λ e. absurd (returned e), λ e. absurd e)
  deliver_kind-panics drand app raw_tx tx = (λ e. absurd (returned e), λ e. absurd e)
  deliver_kind-panics fee app raw_tx tx = (λ e. absurd (returned e), λ e. absurd e)
  deliver_kind-panics other app raw_tx tx = (λ e. absurd (returned e), λ e. absurd e)

  pub update_state_from_tx-panics :
      (app : App D) (raw_tx : Str)
      → let tx = delivered_tx ext ops app raw_tx in
        (update_state_from_tx ext ops app raw_tx ≡ panics) ↔ Poisons (kind_of tx.tx_type) app tx
  unfolding update_state_from_tx
  update_state_from_tx-panics app raw_tx =
      let tx = delivered_tx ext ops app raw_tx in
      deliver_kind-panics (kind_of tx.tx_type) app raw_tx tx
