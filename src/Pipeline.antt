-- ===== src/Pipeline.antt =====
-- The way of a hash through aggregator/aggregator.go, calendar/calendar.go and proof/proof.go: what
-- the calendar branch of its proof computes.
pub mod Bitcoin
use chainpoint_core.Prelude.{
  ℕ, ◌+◌, Str, str, false, some, List, [], ◌∷◌, ◌++◌, length, get_elem?, ◌≡◌, refl, ap, ◌∙◌,
}
use chainpoint_core.LevelDb.{IsAscii, is_ascii, is_ascii-IsAscii}
use chainpoint_core.Types.{HashItem, AggState, Aggregation, CalProofData, CalStateObject}
use chainpoint_core.Strconv.Hex.{hex_encode, hex_decode, IsBytes}
use chainpoint_core.Merkle.{MerkleOps, MerkleLaws, Each}
use chainpoint_core.Merkle.Eval.{eval, text_bytes}
use chainpoint_core.Calendar.{
  OpsJson, cal_uri, cal_states, cal_leaves, cal_proofs, generate_calendar_tree,
  create_cal_state_message,
}
use chainpoint_core.Calendar.Sound.{
  HasRoot, AllProved, cal_leaves-IsBytes, generate_calendar_tree-AllProved,
}
use chainpoint_core.Aggregator.{leaves_of, process_aggregation}
use chainpoint_core.Aggregator.Sound.{
  IsPlain, AsciiItems, Fits, OpsJsonLaws, AllProve, IsAscii-append, hex_encode-IsAscii,
  lines_of-AsciiItems,
}
use chainpoint_core.Aggregator.Proofs.{
  sha256-IsAscii, process_aggregation-AllProve, process_aggregation-HasRoot,
}
use chainpoint_core.Proof.{P, objects, single, get_field, add_calendar_branch}
use chainpoint_core.Proof.Sound.{eval_branch, add_calendar_branch-computes}

-- Each aggregation has its state, in order, whose stored operations compute the given root.
abbrev pub AllStored : (Str → Str) → OpsJson → Str → List Aggregation → List CalStateObject → Type 0
AllStored sha js root [] [] = Unit {0}
AllStored sha js root (a ∷ aggs) (s ∷ ss) =
    ((s.agg_id ≡ a.agg_id)
      × ((js.decode_anchor s.cal_state).1 ≡ false)
      × (eval sha (text_bytes a.agg_root) (js.decode_anchor s.cal_state).0.ops ≡ root))
    × AllStored sha js root aggs ss
AllStored sha js root _ _ = ⊥

Each-append {ℓ} :
    {A : Type ℓ} (Q : A → Type 0) (a b : List A) → Each Q a → Each Q b → Each Q (a ++ b)
Each-append Q [] b h k = k
Each-append Q (x ∷ a) b (h, hs) k = (h, Each-append Q a b hs k)

pub cal_uri-IsAscii : (base hash : Str) → IsAscii base → IsAscii hash → IsAscii (cal_uri base hash)
unfolding is_ascii
cal_uri-IsAscii base hash a h = IsAscii-append base (str "/calendar/" ++ (hash ++ str "/data")) a (
    IsAscii-append (str "/calendar/") (hash ++ str "/data")
      (is_ascii-IsAscii (str "/calendar/") refl)
      (IsAscii-append hash (str "/data") h (is_ascii-IsAscii (str "/data") refl)))

module _ (sha : Str → Str) (mt : MerkleOps) (laws : MerkleLaws sha mt) (js : OpsJson)
    (jl : OpsJsonLaws js) where
  cal_proofs-AsciiItems :
      (leaves : List Str) (i : ℕ) (aggs : List Aggregation)
      → Each IsBytes leaves
      → Each (λ p. AsciiItems p.proof) (cal_proofs mt leaves i aggs)
  unfolding cal_proofs
  cal_proofs-AsciiItems leaves i [] b = tt
  cal_proofs-AsciiItems leaves i (a ∷ aggs) b = (
    lines_of-AsciiItems (str "sha-256") (mt.get_proof leaves i) sha256-IsAscii
        (laws.proof_bytes leaves i b),
    cal_proofs-AsciiItems leaves (i + 1) aggs b,
  )

  cal_states-AllStored :
      (root base hash : Str) (aggs : List Aggregation) (ps : List CalProofData)
      → IsAscii base
      → IsAscii hash
      → AllProved sha root aggs ps
      → Each (λ p. AsciiItems p.proof) ps
      → AllStored sha js root aggs (cal_states js base hash ps)
  unfolding cal_states
  cal_states-AllStored root base hash [] [] a h p s = tt
  cal_states-AllStored root base hash [] (_ ∷ ps) a h p s = elim p [ ]
  cal_states-AllStored root base hash (g ∷ aggs) [] a h p s = elim p [ ]
  cal_states-AllStored root base hash (g ∷ aggs) (p ∷ ps) a h (same, computes, more) (s, ss) =
      let (t, written, read) =
        jl.anchor_stored
          (record {
            ops = p.proof;
            anchor = record { anchor_id = hash; uris = cal_uri base hash ∷ [] };
          })
          s h (cal_uri-IsAscii base hash a h, tt) in
      rw (cal_states, written)
        (
          (
            same,
            ap (λ r. r.1) read,
            ap (λ r. eval sha (text_bytes g.agg_root) r.0.ops) read ∙ computes,
          ),
          cal_states-AllStored root base hash aggs ps a h more ss,
        )

  -- When every aggregation has a hexadecimal root and the node's uri is ASCII, the states that
  -- CreateCalStateMessage makes of GenerateCalendarTree's tree are one for each aggregation, in order,
  -- and the operations stored in each compute the calendar root from the aggregation's root.
  pub create_cal_state_message-AllStored :
      (base tx_hash : Str) (aggs : List Aggregation)
      → IsAscii base
      → IsBytes tx_hash
      → Each HasRoot aggs
      → let tree = generate_calendar_tree mt aggs in
        AllStored sha js
          (text_bytes tree.cal_root)
          aggs
          (create_cal_state_message js base tx_hash tree)
  unfolding create_cal_state_message generate_calendar_tree
  create_cal_state_message-AllStored base tx_hash aggs a b h =
      cal_states-AllStored (text_bytes (generate_calendar_tree mt aggs).cal_root) base
        (hex_encode tx_hash) aggs (generate_calendar_tree mt aggs).proof_data a
        (hex_encode-IsAscii tx_hash b) (generate_calendar_tree-AllProved sha mt laws aggs h)
        (cal_proofs-AsciiItems (cal_leaves aggs) 0 aggs (cal_leaves-IsBytes aggs h))

  -- The calendar branch of a hash, with the state of its aggregation in the calendar, computes the
  -- given root from the hash.
  abbrev pub Completes : Str → CalStateObject → HashItem → AggState → Type 0
  Completes root cal h s =
      (proof : P) (proof_type : Str)
      → let (after, failed) = add_calendar_branch js proof s cal.cal_state proof_type in
        (failed ≡ false)
        × ((branch : P) × (get_field (str "branches") after ≡ some (objects (single branch)))
            × (eval_branch sha (hex_decode h.hash).0 branch ≡ root))

  abbrev pub AllComplete : Str → CalStateObject → List HashItem → List AggState → Type 0
  AllComplete root cal [] [] = Unit {0}
  AllComplete root cal (h ∷ hs) (s ∷ ss) = Completes root cal h s × AllComplete root cal hs ss
  AllComplete root cal _ _ = ⊥

  state_of :
      (root : Str) (earlier : List Aggregation) (a : Aggregation) (later : List Aggregation)
      (ss : List CalStateObject)
      → AllStored sha js root (earlier ++ a ∷ later) ss
      → (cal : CalStateObject) × (get_elem? ss (length earlier) ≡ some cal)
        × (cal.agg_id ≡ a.agg_id)
        × ((js.decode_anchor cal.cal_state).1 ≡ false)
        × (eval sha (text_bytes a.agg_root) (js.decode_anchor cal.cal_state).0.ops ≡ root)
  state_of root [] a later [] h = elim h [ ]
  state_of root [] a later (s ∷ ss) ((same, read, computes), more) = (s, refl, same, read, computes)
  state_of root (e ∷ earlier) a later [] h = elim h [ ]
  state_of root (e ∷ earlier) a later (s ∷ ss) (first, more) = state_of root earlier a later ss more

  all_complete :
      (agg_root root : Str) (cal : CalStateObject) (hs : List HashItem) (ss : List AggState)
      → (js.decode_anchor cal.cal_state).1 ≡ false
      → eval sha agg_root (js.decode_anchor cal.cal_state).0.ops ≡ root
      → AllProve sha js agg_root hs ss
      → AllComplete root cal hs ss
  all_complete agg_root root cal [] [] r c p = tt
  all_complete agg_root root cal [] (s ∷ ss) r c p = elim p [ ]
  all_complete agg_root root cal (h ∷ hs) [] r c p = elim p [ ]
  all_complete agg_root root cal (h ∷ hs) (s ∷ ss) r c (p, ps) = (
    λ proof proof_type.
        let (fine, (branch, at, computes), kept) =
          add_calendar_branch-computes sha js proof s cal.cal_state proof_type p.readable r in
        (
          fine,
          (
            branch,
            at,
            computes (hex_decode h.hash).0
                ∙ ap (λ x. eval sha x (js.decode_anchor cal.cal_state).0.ops) p.computes
                ∙ c,
          ),
        ),
    all_complete agg_root root cal hs ss r c ps,
  )

  -- A batch of hashes is aggregated, its root goes into the calendar's tree among other hexadecimal
  -- roots, and the calendar transaction's states are made. Then the state at the batch's place is the
  -- batch's, and for each hash, in order, AddCalendarBranch succeeds with a branch that computes the
  -- calendar root from the hash. The batch has an id, the beacon's text and the node's uri are ASCII,
  -- the hashes fit their leaves, and no node of the batch's tree contains the word "drand".
  pub process_aggregation-AllComplete :
      (sha_bytes : (s : Str) → IsBytes (sha s)) (drand agg_id base tx_hash : Str) (h : HashItem)
      (hs : List HashItem) (earlier later : List Aggregation)
      → IsAscii drand
      → IsAscii base
      → IsBytes tx_hash
      → Each (λ x. Fits drand x.hash) (h ∷ hs)
      → ((j : ℕ) → Each IsPlain (mt.get_proof (leaves_of sha drand (h ∷ hs)) j))
      → Each HasRoot earlier
      → Each HasRoot later
      → let agg = process_aggregation mt js sha drand (some agg_id) (h ∷ hs) in
        let tree = generate_calendar_tree mt (earlier ++ agg ∷ later) in
        (cal : CalStateObject) × (get_elem?
            (create_cal_state_message js base tx_hash tree)
            (length earlier)
          ≡ some cal)
        × (cal.agg_id ≡ agg.agg_id)
        × AllComplete (text_bytes tree.cal_root) cal (h ∷ hs) agg.agg_states
  process_aggregation-AllComplete sha_bytes drand agg_id base tx_hash h hs earlier later a u b f p
        he hl =
      let agg = process_aggregation mt js sha drand (some agg_id) (h ∷ hs) in
      let tree = generate_calendar_tree mt (earlier ++ agg ∷ later) in
      let proved =
        process_aggregation-AllProve sha sha_bytes mt laws js jl drand agg_id h hs a f p in
      let rooted =
        Each-append HasRoot earlier (agg ∷ later) he
          (process_aggregation-HasRoot sha sha_bytes mt laws js jl drand agg_id h hs, hl) in
      let (cal, at, same, read, computes) =
        state_of (text_bytes tree.cal_root) earlier agg later
          (create_cal_state_message js base tx_hash tree)
          (create_cal_state_message-AllStored base tx_hash (earlier ++ agg ∷ later) u b rooted) in
      (
        cal,
        at,
        same,
        all_complete (text_bytes agg.agg_root) (text_bytes tree.cal_root) cal (h ∷ hs)
            agg.agg_states read computes proved.1,
      )
