-- ===== src/Aggregator/Proofs.antt =====
-- What ProcessAggregation (aggregator/aggregator.go) promises: each hash gets a proof of the root.
use chainpoint_core.Prelude.{
  ℕ, zero, suc, ◌+◌, Str, str, str_eq, pad, not, some, List, [], ◌∷◌, ◌++◌, length, length-append,
  append_assoc, get_elem?, ◌≡◌, refl, ap, sym, subst, ◌∙◌, arith, Bool-cases, inl, inr,
}
use chainpoint_core.LevelDb.{IsAscii, is_ascii, is_ascii-IsAscii}
use chainpoint_core.Types.{HashItem}
use chainpoint_core.Strconv.Hex.{
  hex_encode, hex_decode, hex_decode-IsBytes, hex_decode-hex_encode, IsBytes,
}
use chainpoint_core.Merkle.{MerkleOps, MerkleLaws, ProofStep, Each}
use chainpoint_core.Merkle.Eval.{eval, text_bytes, text_bytes-hex_encode}
use chainpoint_core.Calendar.{OpsJson}
use chainpoint_core.Calendar.Sound.{HasRoot, get_elem?-append}
use chainpoint_core.Aggregator.{
  drand_text, leaf_of, leaves_of, agg_lines, with_drand, ops_of, agg_states_from, aggregation_of,
  process_aggregation,
}
use chainpoint_core.Aggregator.Sound.{
  IsPlain, AsciiItems, Fits, OpsJsonLaws, AllProve, agg_lines-climb, agg_lines-plain,
  agg_item-drand, IsAscii-append, lines_of-AsciiItems,
}

pub sha256-IsAscii : IsAscii (str "sha-256")
unfolding is_ascii
sha256-IsAscii = is_ascii-IsAscii (str "sha-256") refl

plain-AsciiItems :
    (ps : List ProofStep)
    → Each IsPlain ps
    → Each (λ p. IsBytes p.value) ps
    → AsciiItems (agg_lines ps)
plain-AsciiItems ps p b =
    subst AsciiItems (sym (agg_lines-plain ps p))
      (lines_of-AsciiItems (str "sha-256") ps sha256-IsAscii b)

drand-IsAscii : (d : Str) → IsAscii d → IsAscii (drand_text d)
unfolding is_ascii
drand-IsAscii d h = IsAscii-append (str "drand:") d (is_ascii-IsAscii (str "drand:") refl) h

pad-IsBytes : (n : ℕ) (s : Str) → IsBytes s → IsBytes (pad n s)
unfolding pad
pad-IsBytes zero s h = tt
pad-IsBytes (suc n) [] h = (omega arith, pad-IsBytes n [] tt)
pad-IsBytes (suc n) (b ∷ s) (h, hs) = (h, pad-IsBytes n s hs)

module _ (sha : Str → Str) (sha_bytes : (s : Str) → IsBytes (sha s)) where
  leaf_of-IsBytes : (drand hash : Str) → IsBytes (leaf_of sha drand hash)
  unfolding leaf_of
  leaf_of-IsBytes drand hash = elim (Bool-cases (not (str_eq drand []))) [
    | inl e ↦ rw e (sha_bytes (drand_text drand ++ (hex_decode hash).0))
    | inr e ↦ rw e (pad-IsBytes 32 (hex_decode hash).0 (hex_decode-IsBytes hash))
  ]

  leaves_of-IsBytes : (drand : Str) (hs : List HashItem) → Each IsBytes (leaves_of sha drand hs)
  unfolding leaves_of
  leaves_of-IsBytes drand [] = tt
  leaves_of-IsBytes drand (h ∷ hs) = (leaf_of-IsBytes drand h.hash, leaves_of-IsBytes drand hs)

  module _ (mt : MerkleOps) (laws : MerkleLaws sha mt) (js : OpsJson) (jl : OpsJsonLaws js) where
    ops-AsciiItems :
        (drand : Str) (ps : List ProofStep)
        → IsAscii drand
        → Each IsPlain ps
        → Each (λ p. IsBytes p.value) ps
        → AsciiItems (agg_lines (with_drand drand ps))
    unfolding agg_lines
    ops-AsciiItems drand ps a p b = elim (Bool-cases (not (str_eq drand []))) [
      | inl e ↦
          rw (e, agg_item-drand sha mt laws js jl drand)
            ((drand-IsAscii drand a, tt, tt), ((tt, tt, sha256-IsAscii), plain-AsciiItems ps p b))
      | inr e ↦ rw e (plain-AsciiItems ps p b)
    ]

    ops_at :
        (drand hash : Str) (leaves : List Str) (i : ℕ)
        → Fits drand hash
        → Each IsPlain (mt.get_proof leaves i)
        → Each IsBytes leaves
        → get_elem? leaves i ≡ some (leaf_of sha drand hash)
        → eval sha (hex_decode hash).0 (ops_of mt js drand leaves i).ops ≡ mt.root leaves
    ops_at drand hash leaves i f p b e =
        agg_lines-climb sha mt laws js jl drand hash (mt.get_proof leaves i) f p
          (laws.proof_bytes leaves i b)
        ∙ laws.proof_root leaves i (leaf_of sha drand hash) e

    states_after :
        (drand agg_id agg_root : Str) (leaves pre : List Str) (i : ℕ) (hs : List HashItem)
        → IsAscii drand
        → Each (λ h. Fits drand h.hash) hs
        → ((j : ℕ) → Each IsPlain (mt.get_proof leaves j))
        → Each IsBytes leaves
        → text_bytes agg_root ≡ mt.root leaves
        → pre ++ leaves_of sha drand hs ≡ leaves
        → length pre ≡ i
        → AllProve sha js
            (mt.root leaves)
            hs
            (agg_states_from mt js drand agg_id agg_root leaves i hs)
    unfolding agg_states_from leaves_of
    states_after drand agg_id agg_root leaves pre i [] a f p b r e l = tt
    states_after drand agg_id agg_root leaves pre i (h ∷ hs) a (f, fs) p b r e l =
        let leaf = leaf_of sha drand h.hash in
        let at : get_elem? leaves i ≡ some leaf =
          subst (λ x. get_elem? x i ≡ some leaf) e
            (subst (λ n. get_elem? (pre ++ leaf ∷ leaves_of sha drand hs) n ≡ some leaf) l
              (get_elem?-append pre leaf (leaves_of sha drand hs))) in
        let (t, written, read) =
          jl.stored (ops_of mt js drand leaves i)
            (ops-AsciiItems drand (mt.get_proof leaves i) a (p i) (laws.proof_bytes leaves i b)) in
        rw (agg_states_from, written)
          (
            record {
              same_id = refl;
              same_hash = refl;
              root_of = r;
              readable = ap (λ x. x.1) read;
              computes =
                  ap (λ x. eval sha (hex_decode h.hash).0 x.0.ops) read
                  ∙ ops_at drand h.hash leaves i f (p i) b at;
            },
            states_after drand agg_id agg_root leaves (pre ++ leaf ∷ []) (i + 1) hs a fs p b r
                (append_assoc pre (leaf ∷ []) (leaves_of sha drand hs) ∙ e)
                (length-append pre (leaf ∷ []) ∙ omega arith),
          )

    -- With an id for the batch, an ASCII beacon text, hashes that fit their leaves and proofs that no
    -- node of which contains the word "drand", ProcessAggregation gives each hash, in order, a state
    -- with its id and its hash, whose stored operations compute the root of the tree from the hash.
    pub process_aggregation-AllProve :
        (drand agg_id : Str) (h : HashItem) (hs : List HashItem)
        → IsAscii drand
        → Each (λ x. Fits drand x.hash) (h ∷ hs)
        → ((j : ℕ) → Each IsPlain (mt.get_proof (leaves_of sha drand (h ∷ hs)) j))
        → let agg = process_aggregation mt js sha drand (some agg_id) (h ∷ hs) in
          (text_bytes agg.agg_root ≡ mt.root (leaves_of sha drand (h ∷ hs)))
          × AllProve sha js (text_bytes agg.agg_root) (h ∷ hs) agg.agg_states
    unfolding process_aggregation aggregation_of
    process_aggregation-AllProve drand agg_id h hs a f p =
        let leaves = leaves_of sha drand (h ∷ hs) in
        let b = leaves_of-IsBytes drand (h ∷ hs) in
        let r = text_bytes-hex_encode (mt.root leaves) (laws.root_bytes leaves b) in
        (
          r,
          subst
              (λ x. AllProve sha js x (h ∷ hs) (
                agg_states_from mt js drand agg_id (hex_encode (mt.root leaves)) leaves 0 (h ∷ hs)))
              (sym r)
              (states_after drand agg_id (hex_encode (mt.root leaves)) leaves [] 0 (h ∷ hs) a f p b
                r refl refl),
        )

    pub process_aggregation-HasRoot :
        (drand agg_id : Str) (h : HashItem) (hs : List HashItem)
        → HasRoot (process_aggregation mt js sha drand (some agg_id) (h ∷ hs))
    unfolding process_aggregation aggregation_of
    process_aggregation-HasRoot drand agg_id h hs =
        ap (λ r. r.1)
          (hex_decode-hex_encode (mt.root (leaves_of sha drand (h ∷ hs)))
            (laws.root_bytes (leaves_of sha drand (h ∷ hs)) (leaves_of-IsBytes drand (h ∷ hs))))
