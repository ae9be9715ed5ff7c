-- ===== src/Aggregator/Sound.antt =====
-- The proofs of an aggregation lead from each hash to the root.
use chainpoint_core.Prelude.{
  ℕ, ◌<◌, ◌/◌, ◌%◌, ◌⊎◌, Str, str, str_eq, pad, contains, true, false, not, some, List, [], ◌∷◌,
  ◌++◌, ◌≡◌, refl, ap, sym, ◌∙◌, arith, Bool-cases, inl, inr,
}
use chainpoint_core.LevelDb.{IsAscii, AllAscii}
use chainpoint_core.Types.{AnchorOpsState, HashItem, AggState, OpsState, ProofLineItem}
use chainpoint_core.Strconv.Hex.{hex_digit, hex_encode, hex_decode, IsBytes}
use chainpoint_core.Merkle.{MerkleOps, MerkleLaws, ProofStep, Each, climb}
use chainpoint_core.Merkle.Eval.{
  eval, eval_item, left_item, op_item, lines_of, text_bytes, text_bytes-drand, eval_item-left,
  eval_item-op, eval-lines_of, run_op-sha,
}
use chainpoint_core.Calendar.{OpsJson}
use chainpoint_core.Aggregator.{drand_text, leaf_of, agg_item, agg_lines, with_drand}

-- No node of the proof contains the word by which the code knows the beacon's time.
abbrev pub IsPlain : ProofStep → Type 0
IsPlain p = contains p.value (str "drand") ≡ false

pub agg_lines-plain :
    (ps : List ProofStep) → Each IsPlain ps → agg_lines ps ≡ lines_of (str "sha-256") ps
unfolding agg_lines lines_of
agg_lines-plain [] h = refl
agg_lines-plain (p ∷ ps) (h, hs) = rw (h, agg_lines-plain ps hs) refl

pub contains-drand_text : (d : Str) → contains (drand_text d) (str "drand") ≡ true
unfolding contains
contains-drand_text d = refl

-- The bytes that a hash stands for.
abbrev pub hash_bytes : Str → Str
hash_bytes hash = (hex_decode hash).0

-- Without the beacon's time a hash has 32 bytes.
abbrev pub Fits : Str → Str → Type 0
Fits drand hash = (not (str_eq drand []) ≡ true) ⊎ (pad 32 (hash_bytes hash) ≡ hash_bytes hash)

abbrev pub AsciiItems : List ProofLineItem → Type 0
AsciiItems = Each (λ p. IsAscii p.left × IsAscii p.right × IsAscii p.op)

-- The operations of a proof, when their texts are ASCII, can be written as JSON and read back.
pub record OpsJsonLaws (js : OpsJson) : Type 0 where
  pub stored :
      (ops : OpsState)
      → AsciiItems ops.ops
      → (t : Str) × (js.encode ops ≡ some t) × (js.decode t ≡ (ops, false))
  pub anchor_stored :
      (ops : AnchorOpsState)
      → AsciiItems ops.ops
      → IsAscii ops.anchor.anchor_id
      → AllAscii ops.anchor.uris
      → (t : Str) × (js.encode_anchor ops ≡ some t) × (js.decode_anchor t ≡ (ops, false))

pub IsAscii-append : (a b : Str) → IsAscii a → IsAscii b → IsAscii (a ++ b)
IsAscii-append [] b h k = k
IsAscii-append (x ∷ a) b (h, hs) k = (h, IsAscii-append a b hs k)

hex_digit-lt : (n : ℕ) → n < 16 → hex_digit n < 128
unfolding hex_digit
hex_digit-lt n h = ground arith

pub hex_encode-IsAscii : (v : Str) → IsBytes v → IsAscii (hex_encode v)
unfolding hex_encode
hex_encode-IsAscii [] h = tt
hex_encode-IsAscii (b ∷ v) (h, hs) = (
  hex_digit-lt (b / 16) (omega arith),
  (hex_digit-lt (b % 16) (omega arith), hex_encode-IsAscii v hs),
)

pub lines_of-AsciiItems :
    (op : Str) (ps : List ProofStep)
    → IsAscii op
    → Each (λ p. IsBytes p.value) ps
    → AsciiItems (lines_of op ps)
unfolding lines_of
lines_of-AsciiItems op [] a h = tt
lines_of-AsciiItems op (p ∷ ps) a (h, hs) = elim (Bool-cases p.left) [
  | inl e ↦
      rw e ((hex_encode-IsAscii p.value h, tt, tt), ((tt, tt, a), lines_of-AsciiItems op ps a hs))
  | inr e ↦
      rw e ((tt, hex_encode-IsAscii p.value h, tt), ((tt, tt, a), lines_of-AsciiItems op ps a hs))
]

-- The state of a hash is for this hash, and its operations compute the root from it.
pub record Proves (sha : Str → Str) (js : OpsJson) (root : Str) (h : HashItem) (s : AggState)
    : Type 0 where
  pub same_id : s.proof_id ≡ h.proof_id
  pub same_hash : s.hash ≡ h.hash
  pub root_of : text_bytes s.agg_root ≡ root
  pub readable : (js.decode s.agg_state).1 ≡ false
  pub computes : eval sha (hash_bytes h.hash) (js.decode s.agg_state).0.ops ≡ root

-- There is one state for each hash, in order.
abbrev pub AllProve : (Str → Str) → OpsJson → Str → List HashItem → List AggState → Type 0
AllProve sha js root [] [] = Unit {0}
AllProve sha js root (h ∷ hs) (s ∷ ss) = Proves sha js root h s × AllProve sha js root hs ss
AllProve sha js root _ _ = ⊥

module _ (sha : Str → Str) (mt : MerkleOps) (laws : MerkleLaws sha mt) (js : OpsJson)
    (jl : OpsJsonLaws js) where
  plain_climb :
      (acc : Str) (ps : List ProofStep)
      → Each IsPlain ps
      → Each (λ p. IsBytes p.value) ps
      → eval sha acc (agg_lines ps) ≡ climb sha acc ps
  plain_climb acc ps p b =
      ap (eval sha acc) (agg_lines-plain ps p)
      ∙ eval-lines_of sha (str "sha-256") acc ps b
      ∙ ap (λ f. climb f acc ps) (run_op-sha sha)

  abbrev pub drand_step : Str → ProofStep
  drand_step drand = record { left = true; value = drand_text drand }

  pub agg_item-drand : (drand : Str) → agg_item (drand_step drand) ≡ left_item (drand_text drand)
  agg_item-drand drand = rw (contains-drand_text drand) refl

  drand_climb :
      (drand acc : Str) (ps : List ProofStep)
      → Each IsPlain ps
      → Each (λ p. IsBytes p.value) ps
      → eval sha acc (agg_lines (drand_step drand ∷ ps))
        ≡ climb sha (sha (drand_text drand ++ acc)) ps
  unfolding agg_lines eval
  drand_climb drand acc ps p b =
      ap
        (λ (x : ProofLineItem).
          eval sha (eval_item sha (eval_item sha acc x) (op_item (str "sha-256"))) (agg_lines ps))
        (agg_item-drand drand)
      ∙ ap (λ x. eval sha x (agg_lines ps))
          (eval_item-op sha (eval_item sha acc (left_item (drand_text drand))) (str "sha-256")
            ∙ ap (λ f. f (eval_item sha acc (left_item (drand_text drand)))) (run_op-sha sha)
            ∙ ap sha (
                eval_item-left sha acc (drand_text drand)
                ∙ ap (λ x. x ++ acc) (text_bytes-drand drand)))
      ∙ plain_climb (sha (drand_text drand ++ acc)) ps p b

  -- The operations from the hash lead to the leaf and on.
  pub agg_lines-climb :
      (drand hash : Str) (ps : List ProofStep)
      → Fits drand hash
      → Each IsPlain ps
      → Each (λ p. IsBytes p.value) ps
      → eval sha (hash_bytes hash) (agg_lines (with_drand drand ps))
        ≡ climb sha (leaf_of sha drand hash) ps
  unfolding leaf_of
  agg_lines-climb drand hash ps f p b = elim (Bool-cases (not (str_eq drand []))) [
    | inl e ↦ rw e (drand_climb drand (hash_bytes hash) ps p b)
    | inr e ↦ rw e (
        plain_climb (hash_bytes hash) ps p b
        ∙ ap (λ x. climb sha x ps) (sym (fits_bytes drand hash e f)))
  ]
    where
      fits_bytes :
          (drand hash : Str)
          → not (str_eq drand []) ≡ false
          → Fits drand hash
          → pad 32 (hash_bytes hash) ≡ hash_bytes hash
      fits_bytes drand hash e (inl h) = cc
      fits_bytes drand hash e (inr h) = h
