-- ===== src/Abci/Validators.antt =====
-- abci/validators.go
use chainpoint_core.Prelude.{
  ◌>>=◌, ℤ, pos, Str, str, insert, delete, Bool, true, false, Option, none, some, List, [], ◌∷◌,
  ◌++◌, split, trim_prefix, has_prefix, str_eq, eqb_ℤ, if◌then◌else◌, Run, returns, panics,
}
use chainpoint_core.Types.{ValidatorUpdate}
use chainpoint_core.Externals.{Externals}
use chainpoint_core.LevelDb.{DbOps}
use chainpoint_core.Strconv.{NumError, parse_int}
use chainpoint_core.Abci.{App, Code, ok, encoding_error, unauthorized}

pub data ValError : Type 0 where
  bad_shape bad_pubkey bad_power bad_block : ValError

-- The values of ValidateValidatorTx
pub record ValTx : Type 0 where
  pub err : Option ValError
  pub id : Str
  pub pubkey : Str
  pub power : ℤ
  pub block_height : ℤ

abbrev pub val_error : ValError → ValTx
val_error e = record { err = some e; id = []; pubkey = []; power = pos 0; block_height = pos 0 }

-- isValidatorTx
unfoldable pub is_validator_tx : Str → Bool
is_validator_tx tx = has_prefix tx (str "val:")

module _ (ext : Externals) where
  abbrev with_block : Str → Str → ℤ → ℤ × Option NumError → ValTx
  with_block id pubkey power (b, some e) = val_error bad_block
  with_block id pubkey power (b, none) = record {
    err = none;
    id = id;
    pubkey = pubkey;
    power = power;
    block_height = b;
  }

  abbrev with_power : Str → Str → Str → ℤ × Option NumError → ValTx
  with_power block_s id pubkey (p, some e) = val_error bad_power
  with_power block_s id pubkey (p, none) =
      if str_eq block_s []
      then record { err = none; id = id; pubkey = pubkey; power = p; block_height = pos 0 }
      else with_block id pubkey p (parse_int block_s)

  abbrev with_pubkey : Str → Str → Str → Option Str → ValTx
  with_pubkey power_s block_s id none = val_error bad_pubkey
  with_pubkey power_s block_s id (some pubkey) = with_power block_s id pubkey (parse_int power_s)

  -- The part after the fields are told apart.
  unfoldable pub read_fields : Str → Str → Str → Str → ValTx
  read_fields id_s pubkey_s power_s block_s =
      with_pubkey power_s block_s (trim_prefix id_s (str "val:"))
        (ext.base64_decode (trim_prefix pubkey_s (str "val:")))

  -- Two fields index the third, which is not there.
  abbrev pub by_fields : List Str → Run ValTx
  by_fields (id_s ∷ pubkey_s ∷ power_s ∷ block_s ∷ []) =
      returns (read_fields id_s pubkey_s power_s block_s)
  by_fields (id_s ∷ pubkey_s ∷ power_s ∷ []) = returns (read_fields id_s pubkey_s power_s [])
  by_fields (a ∷ b ∷ []) = panics
  by_fields _ = returns (val_error bad_shape)

  -- ValidateValidatorTx
  unfoldable pub validate_validator_tx : Str → Run ValTx
  unfolding read_fields
  validate_validator_tx v = by_fields (split v b'!')

  module _ {D : Type 0} (ops : DbOps D) where
    abbrev pub val_key : Str → Str
    val_key pubkey = str "val:" ++ pubkey

    abbrev pub add_update : ValidatorUpdate → App D → App D
    add_update v app = record app { val_updates = app.val_updates ++ v ∷ [] }

    -- A power of 0 removes a validator that the database has.
    abbrev pub remove_validator : ValidatorUpdate → App D → Option Str × Bool → Run (App D × Code)
    remove_validator v app (found, true) = panics
    remove_validator v app (none, false) = returns (app, unauthorized)
    remove_validator v app (some _, false) = returns (
      add_update v (record app {
        db = (ops.delete app.db (val_key v.pub_key)).0;
        val_addr_to_pub_key = delete (ext.address_of_key v.pub_key) app.val_addr_to_pub_key;
      }),
      ok,
    )

    abbrev pub put_validator : ValidatorUpdate → App D → Option Str → Run (App D × Code)
    put_validator v app none = returns (app, encoding_error)
    put_validator v app (some value) = returns (
      add_update v (record app {
        db = (ops.set app.db (val_key v.pub_key) value).0;
        val_addr_to_pub_key =
            insert (ext.address_of_key v.pub_key) v.pub_key app.val_addr_to_pub_key;
      }),
      ok,
    )

    -- updateValidator
    unfoldable pub update_validator : ValidatorUpdate → App D → Run (App D × Code)
    update_validator v app =
        if eqb_ℤ v.power (pos 0)
        then remove_validator v app (ops.get app.db (val_key v.pub_key))
        else put_validator v app (ext.write_validator_update v)

    abbrev pub exec_parsed : App D → ValTx → Option ValError → Run (App D × Code)
    exec_parsed app t (some e) = returns (app, encoding_error)
    exec_parsed app t none = update_validator (record { pub_key = t.pubkey; power = t.power }) app

    -- execValidatorTx
    unfoldable pub exec_validator_tx : Str → App D → Run (App D × Code)
    exec_validator_tx tx app = do t ← validate_validator_tx tx; exec_parsed app t t.err
