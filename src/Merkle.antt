-- ===== src/Merkle.antt =====
-- merkletools-go, as calendar/calendar.go, aggregator/aggregator.go and anchor/bitcoin use it: the
-- root of the tree of some leaves, and the proof of one of them. It is a parameter of the model.
pub mod Eval
use chainpoint_core.Prelude.{ℕ, Str, Bool, List, [], ◌∷◌, ◌++◌, get_elem?, some, ◌≡◌, if◌then◌else◌}
use chainpoint_core.Strconv.Hex.{IsBytes}

-- A step of a proof: a node on the left, or on the right.
pub record ProofStep : Type 0 where
  pub left : Bool
  pub value : Str

-- MakeTree and MakeBTCTree, with GetMerkleRoot and GetProof
pub record MerkleOps : Type 0 where
  pub root : List Str → Str
  pub get_proof : List Str → ℕ → List ProofStep
  pub btc_root : List Str → Str
  pub get_btc_proof : List Str → ℕ → List ProofStep

-- The node above a node and its sibling, and the node at the end of a path.
abbrev pub join : (Str → Str) → Str → ProofStep → Str
join hash acc p = if p.left then hash (p.value ++ acc) else hash (acc ++ p.value)

abbrev pub climb : (Str → Str) → Str → List ProofStep → Str
climb hash acc [] = acc
climb hash acc (p ∷ ps) = climb hash (join hash acc p) ps

abbrev pub Each {ℓ} : {A : Type ℓ} → (A → Type 0) → List A → Type 0
Each P [] = Unit {0}
Each P (x ∷ xs) = P x × Each P xs

-- What merkletools documents: the proof of a leaf leads from the leaf to the root. Trees of bytes
-- have nodes of bytes.
pub record MerkleLaws (sha : Str → Str) (mt : MerkleOps) : Type 0 where
  pub proof_root :
      (leaves : List Str) (i : ℕ) (leaf : Str)
      → get_elem? leaves i ≡ some leaf
      → climb sha leaf (mt.get_proof leaves i) ≡ mt.root leaves
  pub btc_proof_root :
      (leaves : List Str) (i : ℕ) (leaf : Str)
      → get_elem? leaves i ≡ some leaf
      → climb (λ s. sha (sha s)) leaf (mt.get_btc_proof leaves i) ≡ mt.btc_root leaves
  pub root_bytes : (leaves : List Str) → Each IsBytes leaves → IsBytes (mt.root leaves)
  pub btc_root_bytes : (leaves : List Str) → Each IsBytes leaves → IsBytes (mt.btc_root leaves)
  pub proof_bytes :
      (leaves : List Str) (i : ℕ)
      → Each IsBytes leaves
      → Each (λ p. IsBytes p.value) (mt.get_proof leaves i)
  pub btc_proof_bytes :
      (leaves : List Str) (i : ℕ)
      → Each IsBytes leaves
      → Each (λ p. IsBytes p.value) (mt.get_btc_proof leaves i)
