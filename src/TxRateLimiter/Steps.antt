-- ===== src/TxRateLimiter/Steps.antt =====
-- What one incoming transaction does to the BTC-A tokens of a core that is no validator.
use chainpoint_core.Prelude.{
  ℕ, zero, suc, ◌+◌, ℤ, Str, str, lookup, lookup-insert, Bool, true, false, ◌&&◌, Option, none,
  some, [], str_eq, str_eq_iff, str_eq_refl, ◌≡◌, refl, sym, subst, ◌∙◌, arith, Bool-cases,
  Option-cases, inl, inr, lookup_or, has_key_found, has_key_missing, lookup_or_found, ◌⊎◌,
  lookup-insert_self,
}
use chainpoint_core.Types.{TxValidation, Tx, AnchorState, PublicKey}
use chainpoint_core.FloatOps.{FloatOps, FloatLaws}
use chainpoint_core.Externals.{Externals}
use chainpoint_core.TxKind.{TxKind, val, cal, btc_a, btc_c, fee, jwk, kind_of}
use chainpoint_core.Util.Tx.{Error, public_key_hex}
use chainpoint_core.TxRateLimiter.{
  zero_tx_validation, rate_limit_update, is_habitual_violator, update_accept_tx, is_validator,
  get_pub_key_hex, get_validation_record,
}
use chainpoint_core.TxRateLimiter.Bucket.{Holds, Holds-refused, Holds-accepted, Holds-zero}
use chainpoint_core.TxRateLimiter.Validate.{
  Outcome, validate_cal, validate_btc_a, validate_btc_c, validate_fee, validate_jwk, validate_kind,
  validate_tx, finish, after_decoding,
}

abbrev pub is_btc_a : TxKind → Bool
is_btc_a btc_a = true
is_btc_a _ = false

module _ (fl : FloatOps) (ext : Externals) where
  -- Only a BTC-A transaction touches the limit of BTC-A transactions.
  pub validate_kind_other :
      (k : TxKind) (tx : Tx) (state : AnchorState) (r : TxValidation)
      → is_btc_a k ≡ false
      → (validate_kind fl ext k tx state r).entry.btca_allowed_rate ≡ r.btca_allowed_rate
  unfolding validate_kind validate_cal validate_btc_c validate_fee validate_jwk
  validate_kind_other btc_a tx state r h = cc
  validate_kind_other cal tx state r h = ground arith
  validate_kind_other btc_c tx state r h = ground arith
  validate_kind_other fee tx state r h = ground arith
  validate_kind_other jwk tx state r h = ground arith
  validate_kind_other val tx state r h = refl
  validate_kind_other _ tx state r h = refl

pub get_pub_key_hex_known :
    (id : Str) (key : PublicKey) (state : AnchorState)
    → lookup id state.core_keys ≡ some key
    → get_pub_key_hex id state ≡ public_key_hex key
unfolding get_pub_key_hex
get_pub_key_hex_known id key state e = rw (e, get_pub_key_hex)

public_key_hex_nonempty : (key : PublicKey) → str_eq (public_key_hex key) [] ≡ false
unfolding public_key_hex str_eq
public_key_hex_nonempty key = refl

-- The record of a core whose key is known is the one under the hex of its key.
pub get_validation_record_known :
    (id : Str) (state : AnchorState) (key : PublicKey)
    → lookup id state.core_keys ≡ some key
    → get_validation_record id state ≡ (
      public_key_hex key,
      lookup_or zero_tx_validation (public_key_hex key) state.tx_validation,
      none,
    )
unfolding get_validation_record
get_validation_record_known id state key e =
    rw (get_pub_key_hex_known id key state e) (rw (public_key_hex_nonempty key))

-- The limits of `NewTxValidation` are 2 for a BTC-A transaction.
abbrev pub btca_rate : ℕ
btca_rate = 2

-- The record under the key's hex has at most `n` BTC-A tokens left at the height of the state.
pub record Budget (fl : FloatOps) (n : ℕ) (hex : Str) (state : AnchorState) : Type 0 where
  pub entry : TxValidation
  pub found : lookup hex state.tx_validation ≡ some entry
  pub holds : Holds fl btca_rate n state.height entry.btca_allowed_rate

-- The transaction is a BTC-A of a core with this key, and is validated.
abbrev pub takes : Str → AnchorState → Outcome → Bool
takes hex state o =
    is_btc_a (kind_of o.tx.tx_type)
    && (str_eq (get_pub_key_hex o.tx.core_id state) hex && o.validated)

abbrev pub cost : Bool → ℕ
cost true = 1
cost false = 0

-- No core with this key is a validator.
abbrev pub NotValidator : Str → AnchorState → Type 0
NotValidator hex state = (id : Str) → get_pub_key_hex id state ≡ hex → is_validator id state ≡ false

module _ (fl : FloatOps) (laws : FloatLaws fl) where
  -- What one BTC-A does to a limit: it is refused, or it takes one of the tokens.
  btc_a_step :
      (n : ℕ) (h : ℤ) (r : TxValidation)
      → Holds fl btca_rate n h r.btca_allowed_rate
      → let v = validate_btc_a fl h false r in
        (m : ℕ) × (m + cost v.validated ≡ n) × Holds fl btca_rate m h v.entry.btca_allowed_rate
  unfolding validate_btc_a
  btc_a_step n h r holds =
      elim (Bool-cases (is_habitual_violator fl (rate_limit_update fl h r.btca_allowed_rate))) [
        | inl e ↦
            rw e (n, omega arith, Holds-refused fl laws btca_rate h r.btca_allowed_rate n holds)
        | inr e ↦ rw e (accept n holds e)
      ]
    where
      accept :
          (k : ℕ)
          → Holds fl btca_rate k h r.btca_allowed_rate
          → is_habitual_violator fl (rate_limit_update fl h r.btca_allowed_rate) ≡ false
          → (m : ℕ) × (m + 1 ≡ k)
            × Holds fl btca_rate m h
                (update_accept_tx fl (rate_limit_update fl h r.btca_allowed_rate))
      accept zero hd e = cc (Holds-zero fl laws btca_rate h r.btca_allowed_rate hd)
      accept (suc k) hd e =
          (k, omega arith, Holds-accepted fl laws btca_rate h r.btca_allowed_rate k hd)

  module _ (ext : Externals) where
    kind_step :
        (k : TxKind) (n : ℕ) (tx : Tx) (state : AnchorState) (r : TxValidation)
        → is_validator tx.core_id state ≡ false
        → Holds fl btca_rate n state.height r.btca_allowed_rate
        → let v = validate_kind fl ext k tx state r in
          (m : ℕ) × (m + cost (is_btc_a k && v.validated) ≡ n)
          × Holds fl btca_rate m state.height v.entry.btca_allowed_rate
    unfolding validate_kind
    kind_step btc_a n tx state r nv holds = rw nv (btc_a_step n state.height r holds)
    kind_step val n tx state r nv holds = (n, omega arith, holds)
    kind_step k n tx state r nv holds = (
      n,
      omega arith,
      subst (Holds fl btca_rate n state.height) (sym (validate_kind_other fl ext k tx state r refl))
          holds,
    )

    other_hex : (b v : Bool) → cost (b && (false && v)) ≡ 0
    other_hex true v = refl
    other_hex false v = refl

    pub validate_tx_known :
        (tx : Tx) (state : AnchorState) (key : PublicKey)
        → lookup tx.core_id state.core_keys ≡ some key
        → validate_tx fl ext state tx
          ≡ finish fl ext (public_key_hex key) state tx (
              validate_kind fl ext
                (kind_of tx.tx_type)
                tx
                state
                (lookup_or zero_tx_validation (public_key_hex key) state.tx_validation))
    unfolding validate_tx
    validate_tx_known tx state key e =
        rw (get_validation_record_known tx.core_id state key e)
          (rw (has_key_found tx.core_id state.core_keys key e))

    own_step :
        (n : ℕ) (tx : Tx) (state : AnchorState) (key : PublicKey)
        → lookup tx.core_id state.core_keys ≡ some key
        → is_validator tx.core_id state ≡ false
        → Budget fl n (public_key_hex key) state
        → let o = validate_tx fl ext state tx in
          (m : ℕ) × (m + cost (takes (public_key_hex key) state o) ≡ n)
          × Budget fl m (public_key_hex key) o.after
    own_step n tx state key e nv b =
        let hex = public_key_hex key in
        let k = kind_of tx.tx_type in
        let v = validate_kind fl ext k tx state b.entry in
        let (m, q, hd) = kind_step k n tx state b.entry nv b.holds in
        rw (validate_tx_known tx state key e, get_pub_key_hex_known tx.core_id key state e)
          (rw
            (
              lookup_or_found zero_tx_validation hex state.tx_validation b.entry b.found,
              str_eq_refl hex,
            )
            (
              m,
              q,
              record {
                entry = v.entry;
                found = lookup-insert_self hex v.entry state.tx_validation;
                holds = hd;
              },
            ))

    other_step :
        (n : ℕ) (hex : Str) (tx : Tx) (state : AnchorState) (key : PublicKey)
        → lookup tx.core_id state.core_keys ≡ some key
        → str_eq (public_key_hex key) hex ≡ false
        → Budget fl n hex state
        → let o = validate_tx fl ext state tx in
          (m : ℕ) × (m + cost (takes hex state o) ≡ n) × Budget fl m hex o.after
    other_step n hex tx state key e diff b =
        rw (validate_tx_known tx state key e, get_pub_key_hex_known tx.core_id key state e)
          (rw diff (
            n,
            omega (arith, other_hex (is_btc_a (kind_of tx.tx_type))),
            record { entry = b.entry; found = rw lookup-insert (rw diff b.found); holds = b.holds },
          ))

    -- The handler on a decoded transaction, for a core whose key is known.
    known_step :
        (n : ℕ) (hex : Str) (tx : Tx) (state : AnchorState) (key : PublicKey)
        → lookup tx.core_id state.core_keys ≡ some key
        → NotValidator hex state
        → Budget fl n hex state
        → let o = validate_tx fl ext state tx in
          (m : ℕ) × (m + cost (takes hex state o) ≡ n) × Budget fl m hex o.after
    known_step n hex tx state key e nv b = elim (Bool-cases (str_eq (public_key_hex key) hex)) [
      | inl same ↦
          let p = (str_eq_iff (public_key_hex key) hex).0 same in
          subst
            (λ x.
              let o = validate_tx fl ext state tx in
              (m : ℕ) × (m + cost (takes x state o) ≡ n) × Budget fl m x o.after)
            p
            (own_step n tx state key e
              (nv tx.core_id (get_pub_key_hex_known tx.core_id key state e ∙ p))
              (subst (λ x. Budget fl n x state) (sym p) b))
      | inr diff ↦ other_step n hex tx state key e diff b
    ]

    jwk_kind : (t : Str) → str_eq t (str "JWK") ≡ true → is_btc_a (kind_of t) ≡ false
    unfolding kind_of str_eq
    jwk_kind t e =
        subst (λ x. is_btc_a (kind_of x) ≡ false) (sym ((str_eq_iff t (str "JWK")).0 e)) refl

    no_cost : (a b c : Bool) → (a ≡ false) ⊎ (c ≡ false) → cost (a && (b && c)) ≡ 0
    no_cost a b c h = ground arith

    -- The handler on a decoded transaction, for a core whose key is not known.
    unknown_step :
        (n : ℕ) (hex : Str) (tx : Tx) (state : AnchorState)
        → lookup tx.core_id state.core_keys ≡ none
        → Budget fl n hex state
        → let o = validate_tx fl ext state tx in
          (m : ℕ) × (m + cost (takes hex state o) ≡ n) × Budget fl m hex o.after
    unfolding validate_tx
    unknown_step n hex tx state e b =
        rw (has_key_missing tx.core_id state.core_keys e)
          (elim (Bool-cases (str_eq tx.tx_type (str "JWK"))) [
            | inl j ↦ rw j (
              n,
              omega (
                arith,
                no_cost (is_btc_a (kind_of tx.tx_type))
                    (str_eq (get_pub_key_hex tx.core_id state) hex) true
                    (inl (jwk_kind tx.tx_type j)),
              ),
              b,
            )
            | inr j ↦ rw j (
              n,
              omega (
                arith,
                no_cost (is_btc_a (kind_of tx.tx_type))
                    (str_eq (get_pub_key_hex tx.core_id state) hex) false (inr refl),
              ),
              b,
            )
          ])

    tx_step :
        (n : ℕ) (hex : Str) (tx : Tx) (state : AnchorState)
        → NotValidator hex state
        → Budget fl n hex state
        → let o = validate_tx fl ext state tx in
          (m : ℕ) × (m + cost (takes hex state o) ≡ n) × Budget fl m hex o.after
    tx_step n hex tx state nv b = elim (Option-cases (lookup tx.core_id state.core_keys)) [
      | inl e ↦ unknown_step n hex tx state e b
      | inr (key, e) ↦ known_step n hex tx state key e nv b
    ]

    pub decoded_step :
        (n : ℕ) (hex : Str) (d : Tx × Option Error) (state : AnchorState)
        → NotValidator hex state
        → Budget fl n hex state
        → let o = after_decoding fl ext state d in
          (m : ℕ) × (m + cost (takes hex state o) ≡ n) × Budget fl m hex o.after
    decoded_step n hex (tx, none) state nv b = tx_step n hex tx state nv b
    decoded_step n hex (tx, some e) state nv b = (
      n,
      omega (
        arith,
        no_cost (is_btc_a (kind_of tx.tx_type)) (str_eq (get_pub_key_hex tx.core_id state) hex)
            false (inr refl),
      ),
      b,
    )
