-- ===== src/ProofDb.antt =====
-- database/level/chainpointdb.go: the states that proofs are built from, in the cache. Records are
-- stored as JSON, under their id and under the id they are looked up by.
pub mod Inserted
use chainpoint_core.Prelude.{
  ℤ, Str, str, Dict, insert, contains, Bool, true, false, ◌||◌, Option, none, some, List, [], ◌∷◌,
  ◌++◌, if◌then◌else◌,
}
use chainpoint_core.Types.{
  AggState, CalStateObject, AnchorBtcAggState, AnchorBtcTxState, ProofState,
}
use chainpoint_core.LevelDb.{DbOps, StringsJson}
use chainpoint_core.Strconv.{format_int}
use chainpoint_core.LevelDb.KvStore.{StoreError, get, set, get_array, append}

-- json.Marshal and json.Unmarshal of one type: a decoder returns the value filled so far, and whether
-- there was an error.
pub record Json (A : Type 0) : Type 0 where
  pub encode : A → Option Str
  pub decode : Str → A × Bool

pub record RecordsJson : Type 0 where
  pub agg : Json AggState
  pub cal : Json CalStateObject
  pub anchor_agg : Json AnchorBtcAggState
  pub btc_tx : Json AnchorBtcTxState
  pub proof : Json ProofState

-- The errors of a lookup or an insert.
pub data ProofDbError : Type 0 where
  store : StoreError → ProofDbError
  insert_failed bad_record : ProofDbError

-- The three keys of a record: the array by its id, the array it is looked up by, and the time.
pub record RecordKeys : Type 0 where
  pub by_id : Str
  pub by_other : Str
  pub created : Str

abbrev pub failed_of : Option StoreError → Bool
failed_of none = false
failed_of (some e) = true

abbrev store_error : Option StoreError → Option ProofDbError
store_error none = none
store_error (some e) = some (store e)

-- What a loop over JSON texts keeps, which skips the texts that do not parse.
unfoldable pub decoded_all : {A : Type 0} → Json A → List Str → List A
decoded_all j [] = []
decoded_all j (s ∷ ss) =
    let rest = decoded_all j ss in let (a, failed) = j.decode s in if failed then rest else a ∷ rest

unfoldable pub ids_of_aggs : List AggState → List Str
ids_of_aggs [] = []
ids_of_aggs (a ∷ aggs) = a.proof_id ∷ ids_of_aggs aggs

-- The loop of GetProofIdsByAggIds does not look at the error of the decoder.
unfoldable pub proof_ids : Json AggState → List Str → List Str
proof_ids j [] = []
proof_ids j (s ∷ ss) = (j.decode s).0.proof_id ∷ proof_ids j ss

abbrev pub agg_keys : AggState → RecordKeys
agg_keys a = record {
  by_id = str "aggstate:" ++ a.agg_id;
  by_other = str "aggstate_by_proof:" ++ a.proof_id;
  created = str "aggstateCreated:" ++ a.proof_id;
}

abbrev pub cal_keys : CalStateObject → RecordKeys
cal_keys c = record {
  by_id = str "calstate:" ++ c.cal_id;
  by_other = str "calstate_by_agg:" ++ c.agg_id;
  created = str "calstateCreated:" ++ c.agg_id;
}

abbrev pub anchor_agg_keys : AnchorBtcAggState → RecordKeys
anchor_agg_keys a = record {
  by_id = str "anchorbtcaggstate:" ++ a.anchor_btc_agg_id;
  by_other = str "anchorbtcaggstate_by_cal:" ++ a.cal_id;
  created = str "anchorbtcaggstateCreated:" ++ a.cal_id;
}

abbrev pub btc_tx_keys : AnchorBtcTxState → RecordKeys
btc_tx_keys s = record {
  by_id = str "btctxstate:" ++ s.btc_tx_id;
  by_other = str "btctxstate_by_agg:" ++ s.anchor_btc_agg_id;
  created = str "btctxstateCreated:" ++ s.anchor_btc_agg_id;
}

module _ {D : Type 0} (ops : DbOps D) (js : StringsJson) where
  -- The writes of a record: by its two keys with `write`, and the time.
  abbrev pub store_record :
      (D → Str → Str → D × Option StoreError) → ℤ → RecordKeys → Str → D → D × Bool
  store_record write now keys text d =
      let (d1, e1) = write d keys.by_id text in
      let (d2, e2) = write d1 keys.by_other text in
      let (d3, e3) = set ops d2 keys.created (format_int now) in (d3, failed_of e1 || failed_of e2)

  -- The loop that the inserts of states have. A record that JSON cannot hold is skipped.
  unfoldable pub bulk_insert :
      {A : Type 0}
      → (D → Str → Str → D × Option StoreError)
      → (A → Option Str)
      → (A → RecordKeys)
      → ℤ
      → List A
      → D
      → D × Option ProofDbError
  bulk_insert write encode keys now [] d = (d, none)
  bulk_insert write encode keys now (a ∷ rest) d = elim (encode a) [
    | none ↦ bulk_insert write encode keys now rest d
    | some text ↦
        let (d', failed) = store_record write now (keys a) text d in
        elim failed [
          | true ↦ (d', some insert_failed)
          | false ↦ bulk_insert write encode keys now rest d'
        ]
  ]

  module _ (rj : RecordsJson) (now : ℤ) where
    -- BulkInsertAggState
    unfoldable pub bulk_insert_agg_state : List AggState → D → D × Option ProofDbError
    unfolding bulk_insert
    bulk_insert_agg_state = bulk_insert (append ops js) rj.agg.encode agg_keys now

    -- BulkInsertCalState
    unfoldable pub bulk_insert_cal_state : List CalStateObject → D → D × Option ProofDbError
    unfolding bulk_insert
    bulk_insert_cal_state = bulk_insert (append ops js) rj.cal.encode cal_keys now

    -- BulkInsertBtcAggState
    unfoldable pub bulk_insert_btc_agg_state : List AnchorBtcAggState → D → D × Option ProofDbError
    unfolding bulk_insert
    bulk_insert_btc_agg_state = bulk_insert (append ops js) rj.anchor_agg.encode anchor_agg_keys now

    -- BulkInsertBtcTxState
    unfoldable pub bulk_insert_btc_tx_state : List AnchorBtcTxState → D → D × Option ProofDbError
    unfolding bulk_insert
    bulk_insert_btc_tx_state = bulk_insert (set ops) rj.btc_tx.encode btc_tx_keys now

    -- The writes of a new proof: an error stops the loop, and the time is written after that.
    abbrev store_proof : ProofState → Option Str → D → D × Option ProofDbError
    store_proof p none d = (d, some bad_record)
    store_proof p (some text) d =
        let (d1, e) = set ops d (str "proof:" ++ p.proof_id) text in
        if failed_of e
        then (d1, store_error e)
        else ((set ops d1 (str "proofCreated:" ++ p.proof_id) (format_int now)).0, none)

    -- One round of BulkInsertProofs. A proof that is anchored already is kept.
    abbrev pub insert_proof : ProofState → D → D × Option ProofDbError
    insert_proof p d =
        let (exists', e) = get ops d (str "proof:" ++ p.proof_id) in
        if failed_of e
        then (d, store_error e)
        else if contains exists' (str "btc_anchor_branch")
        then (d, none)
        else store_proof p (rj.proof.encode p) d

    -- BulkInsertProofs
    unfoldable pub bulk_insert_proofs : List ProofState → D → D × Option ProofDbError
    bulk_insert_proofs [] d = (d, none)
    bulk_insert_proofs (p ∷ rest) d =
        let (d', e) = insert_proof p d in
        elim e [ some err ↦ (d', some err) | none ↦ bulk_insert_proofs rest d' ]

  module _ (rj : RecordsJson) where
    abbrev empty_btc_tx_state : AnchorBtcTxState
    empty_btc_tx_state = record { anchor_btc_agg_id = []; btc_tx_id = []; btc_tx_state = [] }

    abbrev parsed_btc_tx : AnchorBtcTxState × Bool → AnchorBtcTxState × Option ProofDbError
    parsed_btc_tx (s, true) = (empty_btc_tx_state, some bad_record)
    parsed_btc_tx (s, false) = (s, none)

    abbrev read_btc_tx : Str × Option StoreError → AnchorBtcTxState × Option ProofDbError
    read_btc_tx (text, some e) = (empty_btc_tx_state, some (store e))
    read_btc_tx (text, none) = parsed_btc_tx (rj.btc_tx.decode text)

    -- GetBTCTxStateObjectByAnchorBTCAggId
    unfoldable pub get_btc_tx_state_object_by_anchor_btc_agg_id :
        Str → D → AnchorBtcTxState × Option ProofDbError
    get_btc_tx_state_object_by_anchor_btc_agg_id agg_id d =
        read_btc_tx (get ops d (str "btctxstate_by_agg:" ++ agg_id))

    -- GetBTCTxStateObjectByBtcHeadState
    unfoldable pub get_btc_tx_state_object_by_btc_head_state :
        Str → D → AnchorBtcTxState × Option ProofDbError
    get_btc_tx_state_object_by_btc_head_state btctx d =
        read_btc_tx (get ops d (str "btctxstate:" ++ btctx))

    -- The loop of GetProofsByProofIds; the error of the decoder is not looked at.
    unfoldable pub proofs_from :
        List Str → D → Dict ProofState → Dict ProofState × Option StoreError
    proofs_from [] d proofs = (proofs, none)
    proofs_from (id ∷ ids) d proofs =
        let (text, e) = get ops d (str "proof:" ++ id) in
        let proof = (rj.proof.decode text).0 in
        let more = proofs_from ids d (insert proof.proof_id proof proofs) in
        elim e [ some err ↦ ([], some err) | none ↦ more ]

    -- GetProofsByProofIds
    unfoldable pub get_proofs_by_proof_ids : List Str → D → Dict ProofState × Option StoreError
    unfolding proofs_from
    get_proofs_by_proof_ids ids d = proofs_from ids d []

    -- The records of an array; a read that fails counts as no records.
    abbrev records_at : {A : Type 0} → Json A → Str → D → List A
    records_at j key d = decoded_all j (get_array ops js d key).0

    -- The loops of GetProofIdsByBtcTxId, from the inside out.
    unfoldable pub ids_of_cals : D → List CalStateObject → List Str
    unfolding decoded_all ids_of_aggs
    ids_of_cals d [] = []
    ids_of_cals d (c ∷ cals) =
        ids_of_aggs (records_at rj.agg (str "aggstate:" ++ c.agg_id) d) ++ ids_of_cals d cals

    unfoldable pub ids_of_anchor_aggs : D → List AnchorBtcAggState → List Str
    unfolding decoded_all ids_of_cals
    ids_of_anchor_aggs d [] = []
    ids_of_anchor_aggs d (a ∷ aggs) =
        ids_of_cals d (records_at rj.cal (str "calstate:" ++ a.cal_id) d)
        ++ ids_of_anchor_aggs d aggs

    abbrev ids_of_btc_tx : D → Str × Option StoreError → List Str
    ids_of_btc_tx d (text, some e) = []
    ids_of_btc_tx d (text, none) = ids_of_anchor_aggs d (
        records_at rj.anchor_agg
          (str "anchorbtcaggstate:" ++ (rj.btc_tx.decode text).0.anchor_btc_agg_id) d)

    -- GetProofIdsByBtcTxId, which returns no error
    unfoldable pub get_proof_ids_by_btc_tx_id : Str → D → List Str
    unfolding decoded_all ids_of_anchor_aggs
    get_proof_ids_by_btc_tx_id btc_tx_id d =
        ids_of_btc_tx d (get ops d (str "btctxstate:" ++ btc_tx_id))

    -- The loop of the lookups by several ids: the first failing read ends it with no results.
    unfoldable pub collect :
        {A : Type 0} → (List Str → List A) → (Str → Str) → List Str → D → List A × Option StoreError
    collect of_texts key [] d = ([], none)
    collect of_texts key (id ∷ ids) d =
        let (texts, e) = get_array ops js d (key id) in
        let (more, e') = collect of_texts key ids d in
        elim e [
          | some err ↦ ([], some err)
          | none ↦ elim e' [ some err ↦ ([], some err) | none ↦ (of_texts texts ++ more, none) ]
        ]

    -- GetProofIdsByAggIds
    unfoldable pub get_proof_ids_by_agg_ids : List Str → D → List Str × Option StoreError
    unfolding collect proof_ids
    get_proof_ids_by_agg_ids = collect (proof_ids rj.agg) (λ id. str "aggstate:" ++ id)

    -- GetCalStateObjectsByAggIds
    unfoldable pub get_cal_state_objects_by_agg_ids :
        List Str → D → List CalStateObject × Option StoreError
    unfolding collect decoded_all
    get_cal_state_objects_by_agg_ids =
        collect (decoded_all rj.cal) (λ id. str "calstate_by_agg:" ++ id)

    -- GetAggStateObjectsByProofIds
    unfoldable pub get_agg_state_objects_by_proof_ids :
        List Str → D → List AggState × Option StoreError
    unfolding collect decoded_all
    get_agg_state_objects_by_proof_ids =
        collect (decoded_all rj.agg) (λ id. str "aggstate_by_proof:" ++ id)

    -- GetAnchorBTCAggStateObjectsByCalIds hides the error of a read.
    unfoldable pub get_anchor_btc_agg_state_objects_by_cal_ids :
        List Str → D → List AnchorBtcAggState × Option StoreError
    unfolding collect decoded_all
    get_anchor_btc_agg_state_objects_by_cal_ids ids d = (
      (collect (decoded_all rj.anchor_agg) (λ id. str "anchorbtcaggstate_by_cal:" ++ id) ids d).0,
      none,
    )
