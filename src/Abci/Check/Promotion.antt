-- ===== src/Abci/Check/Promotion.antt =====
-- Which proposals to change the validators CheckTx lets through.
use chainpoint_core.Prelude.{
  ℤ, Str, Bool, true, false, Option, none, some, [], str_eq, ◌≡◌, subst, ◌⊎◌, inl, inr, refl, ap,
  ◌∙◌, arith, returns, >>=-returns, returns-injective, Bool-cases,
}
use chainpoint_core.Types.{Tx, TxValidation}
use chainpoint_core.Externals.{Externals}
use chainpoint_core.TxKind.{val}
use chainpoint_core.Util.Tx.{Error}
use chainpoint_core.TxRateLimiter.{
  get_validation_record, is_validator, set_validation_record, get_pub_key_hex,
}
use chainpoint_core.Abci.{App, Code, ok}
use chainpoint_core.Abci.Validators.{ValTx, ValError, validate_validator_tx}
use chainpoint_core.Abci.Identity.{ChannelQuery}
use chainpoint_core.Abci.Check.{
  AnchorCheck, always_accepted, check_kind, check_parsed_val, judge, noted, note_submitter, answer,
  good_candidate,
}
use chainpoint_core.Abci.Block.{set_state}

answer_ok : {D : Type 0} (app : App D) (b : Bool) → (answer app b).1 ≡ ok → b ≡ true
answer_ok app true e = refl
answer_ok app false e = cc

-- What stands in both states of a node around the note on a submitter.
record SameNode {D : Type 0} (a b : App D) : Type 0 where
  pub own : is_validator a.id a.state ≡ is_validator b.id b.state
  pub pending : a.pending_validator ≡ b.pending_validator
  pub hexes : (id : Str) → get_pub_key_hex id a.state ≡ get_pub_key_hex id b.state

module _ {D : Type 0} (app : App D) (tx : Tx) where
  stored-SameNode :
      (id : Str) (r : TxValidation)
      → SameNode (set_state app (set_validation_record id r app.state).0) app
  unfolding set_validation_record get_pub_key_hex is_validator
  stored-SameNode id r = elim (Bool-cases (str_eq (get_pub_key_hex id app.state) [])) [
    | inl e ↦ rw e (record { own = refl; pending = refl; hexes = λ j. refl })
    | inr e ↦ rw e (record { own = refl; pending = refl; hexes = λ j. refl })
  ]

  note-SameNode :
      (id : Str) (r : Str × TxValidation × Option Error)
      → SameNode (set_state app (note_submitter id app.state r)) app
  note-SameNode id (hex, r, none) = record { own = refl; pending = refl; hexes = λ j. refl }
  note-SameNode id (hex, r, some e) = stored-SameNode id _

  noted-SameNode : SameNode (noted app tx) app
  noted-SameNode = elim (Bool-cases (is_validator tx.core_id app.state)) [
    | inl e ↦ rw e (record { own = refl; pending = refl; hexes = λ j. refl })
    | inr e ↦ rw e (note-SameNode tx.core_id (get_validation_record tx.core_id app.state))
  ]

-- A good candidate has no key.
good_candidate_keyless :
    {D : Type 0} (app : App D) (power : ℤ) (id : Str)
    → good_candidate app power (get_validation_record id app.state) ≡ true
    → str_eq (get_pub_key_hex id app.state) [] ≡ true
unfolding get_validation_record
good_candidate_keyless app power id g =
    elim (Bool-cases (str_eq (get_pub_key_hex id app.state) [])) [
      | inl e ↦ e
      | inr e ↦ absurd (let h : false ≡ true = rw e at g in cc)
    ]

judge_ok :
    {D : Type 0} (app : App D) (tx : Tx) (t : ValTx)
    → is_validator app.id app.state ≡ true
    → judge app tx t ≡ true
    → (str_eq t.id always_accepted ≡ true)
      ⊎ ((str_eq app.pending_validator tx.tx_data ≡ true)
          × (good_candidate app t.power (get_validation_record t.id app.state) ≡ true))
judge_ok app tx t v j = ground arith

abbrev pub Promoted : {D : Type 0} → App D → Tx → ValTx → Type 0
Promoted app tx t =
    (str_eq t.id always_accepted ≡ true)
    ⊎ ((str_eq app.pending_validator tx.tx_data ≡ true)
        × (str_eq (get_pub_key_hex t.id app.state) [] ≡ true))

judge-Promoted :
    {D : Type 0} (app a : App D) (tx : Tx) (t : ValTx)
    → SameNode a app
    → is_validator app.id app.state ≡ true
    → judge a tx t ≡ true
    → Promoted app tx t
judge-Promoted app a tx t s v j = elim (judge_ok a tx t (s.own ∙ v) j) [
  | inl e ↦ inl e
  | inr (p, g) ↦ inr (
    subst (λ x. str_eq x tx.tx_data ≡ true) s.pending p,
    subst (λ x. str_eq x [] ≡ true) (s.hexes t.id) (good_candidate_keyless a t.power t.id g),
  )
]

parsed-Promoted :
    {D : Type 0} (app : App D) (tx : Tx) (t : ValTx) (e : Option ValError)
    → is_validator app.id app.state ≡ true
    → (check_parsed_val app tx t e).1 ≡ ok
    → (e ≡ none) × Promoted app tx t
parsed-Promoted app tx t (some e) v o = cc
parsed-Promoted app tx t none v o = (
  refl,
  judge-Promoted app (noted app tx) tx t (noted-SameNode app tx) v
      (answer_ok (noted app tx) (judge (noted app tx) tx t) o),
)

module _ (check_anchor : AnchorCheck) (ext : Externals) (channels : ChannelQuery) where
  -- A validator lets a VAL transaction through CheckTx only if its text parses without an error, and either its id is
  -- the one that is always accepted, or the text is the node's own pending proposal and the
  -- candidate's key is not known: no core that has declared its key passes.
  pub check_kind_promotion :
      {D : Type 0} (app : App D) (tx : Tx) {r : App D × Code}
      → is_validator app.id app.state ≡ true
      → check_kind check_anchor ext channels val app tx ≡ returns r
      → r.1 ≡ ok
      → (t : ValTx) × (validate_validator_tx ext tx.tx_data ≡ returns t)
        × (t.err ≡ none)
        × Promoted app tx t
  unfolding check_kind
  check_kind_promotion app tx v e o =
      let (t, p, q) = >>=-returns (validate_validator_tx ext tx.tx_data) _ e in
      let (parses, promoted) =
        parsed-Promoted app tx t t.err v (ap (λ x. x.1) (returns-injective q) ∙ o) in
      (t, p, parses, promoted)
