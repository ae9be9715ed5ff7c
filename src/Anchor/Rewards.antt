-- ===== src/Anchor/Rewards.antt =====
-- When AnchorReward (anchor/bitcoin/bitcoinanchor.go) pays, and what it returns.
use chainpoint_core.Prelude.{
  ℤ, pos, ltb_ℤ, Str, str_eq, lookup, Bool, true, false, not, Option-cases, inl, inr, Option, none,
  some, [], ◌≡◌, refl, ap, sym, if◌then◌else◌,
}
use chainpoint_core.Types.{AnchorState, AnchorConfig}
use chainpoint_core.Anchor.{AnchorError, LightningClient}
use chainpoint_core.Anchor.Batch.{anchor_reward}

module _ (ln : LightningClient) (ip_of_uri address_of : Str → Str) (config : AnchorConfig)
    (s : AnchorState) (core_id : Str) where
  -- There is an error, and a payment only of the reward, when it is positive and the chain is synced.
  abbrev pub Fair : Option (Str × ℤ) × Option AnchorError → Type 0
  Fair r =
      ((e : AnchorError) × (r.1 ≡ some e))
      × ((payment : Str × ℤ)
          → r.0 ≡ some payment
          → (payment.1 ≡ config.anchor_reward)
            × (ltb_ℤ (pos 0) config.anchor_reward ≡ true)
            × (s.chain_synced ≡ true))

  no_payment : (e : AnchorError) → Fair (none, some e)
  no_payment e = ((e, refl), λ payment h. cc)

  paid :
      (positive synced no_ip no_address : Bool) (coins : Option Str) (address : Str)
      → ltb_ℤ (pos 0) config.anchor_reward ≡ positive
      → s.chain_synced ≡ synced
      → Fair (
          if not positive
          then (none, some AnchorError.not_rewarded)
          else if not synced
          then (none, some AnchorError.not_rewarded)
          else if no_ip
          then (none, some AnchorError.not_rewarded)
          else if no_address
          then (none, some AnchorError.not_rewarded)
          else elim coins [
            | none ↦ (none, some AnchorError.send_failed)
            | some txid ↦ (some (address, config.anchor_reward), some AnchorError.not_rewarded)
          ])
  paid false synced no_ip no_address coins address p c = no_payment AnchorError.not_rewarded
  paid true false no_ip no_address coins address p c = no_payment AnchorError.not_rewarded
  paid true true true no_address coins address p c = no_payment AnchorError.not_rewarded
  paid true true false true coins address p c = no_payment AnchorError.not_rewarded
  paid true true false false none address p c = no_payment AnchorError.send_failed
  paid true true false false (some txid) address p c = (
    (AnchorError.not_rewarded, refl),
    λ payment h. (same_amount (address, config.anchor_reward) payment h, p, c),
  )
    where
      same_amount : (x y : Str × ℤ) → some x ≡ some y → y.1 ≡ x.1
      same_amount x y h = ap (λ o. elim o [ none ↦ x.1 | some z ↦ z.1 ]) (sym h)

  -- AnchorReward returns an error in every case, also after a payment that succeeded; it pays only
  -- when the configured reward is positive and the chain is synced, and it pays that reward.
  pub anchor_reward-Fair : Fair (anchor_reward ln ip_of_uri address_of config s core_id)
  unfolding anchor_reward
  anchor_reward-Fair = elim (Option-cases (lookup core_id s.ln_uris)) [
    | inl n ↦ rw (anchor_reward, n) (no_payment AnchorError.not_rewarded)
    | inr (uri, e) ↦
        let ip = ip_of_uri uri.peer in
        rw (anchor_reward, e)
          (paid (ltb_ℤ (pos 0) config.anchor_reward) s.chain_synced (str_eq ip [])
            (str_eq (address_of ip) []) (ln.send_coins (address_of ip) config.anchor_reward)
            (address_of ip) refl refl)
  ]
