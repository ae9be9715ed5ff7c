-- ===== src/TxRateLimiter/Unlimited.antt =====
-- A core whose key is known and that has no validation record: `GetValidationRecord` gives it the
-- zero record, and a limit of 0 in 0 blocks makes its bucket a NaN.
use chainpoint_core.Prelude.{
  ℤ, Str, lookup, lookup_or, lookup_or_missing, lookup_or-insert_self, pos, sub64, subst, sym, Bool,
  true, false, none, some, ◌≡◌, refl,
}
use chainpoint_core.Types.{RateLimit, TxValidation, Tx, AnchorState, PublicKey}
use chainpoint_core.FloatOps.{FloatOps, FloatLaws, IsNan, float_one}
use chainpoint_core.Externals.{Externals}
use chainpoint_core.Util.Tx.{public_key_hex}
use chainpoint_core.TxKind.{btc_a, kind_of}
use chainpoint_core.TxRateLimiter.{
  is_validator, zero_tx_validation, rate_limit_update, is_habitual_violator, update_accept_tx,
}
use chainpoint_core.TxRateLimiter.Validate.{validate_btc_a, validate_kind, validate_tx}
use chainpoint_core.TxRateLimiter.Steps.{validate_tx_known}

module _ (fl : FloatOps) (laws : FloatLaws fl) where
  IsNan-filled :
      (d : ℤ) (limit : RateLimit)
      → limit.allowed_rate ≡ pos 0
      → limit.per_blocks ≡ pos 0
      → IsNan (
          fl.add limit.bucket (
            fl.mul
              (fl.of_int64 d)
              (fl.div (fl.of_int64 limit.allowed_rate) (fl.of_int64 limit.per_blocks))))
  IsNan-filled d limit a p = laws.add_nan limit.bucket _ (
      laws.mul_nan (fl.of_int64 d) _ (
        subst (λ x. IsNan (fl.div (fl.of_int64 x) (fl.of_int64 limit.per_blocks))) (sym a)
          (subst (λ x. IsNan (fl.div (fl.of_int64 (pos 0)) (fl.of_int64 x))) (sym p)
            laws.div_zero)))

  -- A limit whose allowed rate and period are both 0 is not exceeded: its bucket becomes a NaN.
  zero_rate_update :
      (h : ℤ) (limit : RateLimit)
      → limit.allowed_rate ≡ pos 0
      → limit.per_blocks ≡ pos 0
      → IsNan (rate_limit_update fl h limit).bucket
  unfolding rate_limit_update
  zero_rate_update h limit a p =
      let n = IsNan-filled (sub64 h limit.last_check) limit a p in
      rw (laws.lt_nan_right (fl.of_int64 limit.allowed_rate) _ n) n

  zero_rate_passes :
      (h : ℤ) (limit : RateLimit)
      → limit.allowed_rate ≡ pos 0
      → limit.per_blocks ≡ pos 0
      → is_habitual_violator fl (rate_limit_update fl h limit) ≡ false
  unfolding is_habitual_violator
  zero_rate_passes h limit a p = laws.lt_nan _ float_one (zero_rate_update h limit a p)

-- The BTC-A limit that the code reads under this hex is the zero value.
pub record IsUnlimited (hex : Str) (state : AnchorState) : Type 0 where
  pub rate :
      (lookup_or zero_tx_validation hex state.tx_validation).btca_allowed_rate.allowed_rate ≡ pos 0
  pub period :
      (lookup_or zero_tx_validation hex state.tx_validation).btca_allowed_rate.per_blocks ≡ pos 0

pub IsUnlimited-missing :
    (hex : Str) (state : AnchorState)
    → lookup hex state.tx_validation ≡ none
    → IsUnlimited hex state
IsUnlimited-missing hex state e =
    let q = lookup_or_missing zero_tx_validation hex state.tx_validation e in
    record {
      rate = rw q (unfold zero_tx_validation in refl);
      period = rw q (unfold zero_tx_validation in refl);
    }

module _ (fl : FloatOps) (laws : FloatLaws fl) (ext : Externals) where
  btc_a_unlimited :
      (h : ℤ) (is_val : Bool) (r : TxValidation)
      → r.btca_allowed_rate.allowed_rate ≡ pos 0
      → r.btca_allowed_rate.per_blocks ≡ pos 0
      → let v = validate_btc_a fl h is_val r in
        (v.validated ≡ true)
        × (v.entry.btca_allowed_rate.allowed_rate ≡ pos 0)
        × (v.entry.btca_allowed_rate.per_blocks ≡ pos 0)
  unfolding validate_btc_a update_accept_tx rate_limit_update
  btc_a_unlimited h is_val r a p =
      let z = zero_rate_passes fl laws h r.btca_allowed_rate a p in rw z (refl, a, p)

  -- A core whose key is known and that has no validation record, or the zero one, has every BTC-A
  -- transaction validated, validator or not, whatever the height, and is in that situation again
  -- afterwards: it is never limited.
  pub missing_record-IsUnlimited :
      (state : AnchorState) (tx : Tx) (key : PublicKey)
      → lookup tx.core_id state.core_keys ≡ some key
      → kind_of tx.tx_type ≡ btc_a
      → IsUnlimited (public_key_hex key) state
      → let o = validate_tx fl ext state tx in
        (o.validated ≡ true) × IsUnlimited (public_key_hex key) o.after
  unfolding validate_kind
  missing_record-IsUnlimited state tx key e k u =
      let hex = public_key_hex key in
      let r = lookup_or zero_tx_validation hex state.tx_validation in
      let (ok, a, p) =
        btc_a_unlimited state.height (is_validator tx.core_id state) r u.rate u.period in
      rw (validate_tx_known fl laws ext tx state key e) (
        rw k
          (ok, record { rate = rw lookup_or-insert_self a; period = rw lookup_or-insert_self p }))
