-- ===== src/Merkle/Eval.antt =====
-- What a proof's operations compute, as the Chainpoint proof format says: an independent description
-- of the ProofLineItems that the code assembles.
use chainpoint_core.Prelude.{
  Str, str, str_eq, List, [], ◌∷◌, ◌++◌, append-nil, ◌≡◌, refl, ap, ◌∙◌, if◌then◌else◌, Bool-cases,
  inl, inr,
}
use chainpoint_core.Types.{ProofLineItem}
use chainpoint_core.Strconv.Hex.{hex_encode, hex_decode, hex_decode-hex_encode, IsBytes}
use chainpoint_core.Merkle.{ProofStep, join, climb, Each}

-- A text of a proof stands for the bytes that it spells in hexadecimal, or else for itself.
unfoldable pub text_bytes : Str → Str
unfolding hex_decode
text_bytes t = let (bytes, good) = hex_decode t in if good then bytes else t

-- The operation of an item.
unfoldable pub run_op : (Str → Str) → Str → Str → Str
run_op sha op acc =
    if str_eq op (str "sha-256")
    then sha acc
    else if str_eq op (str "sha-256-x2")
    then sha (sha acc)
    else acc

unfoldable pub eval_item : (Str → Str) → Str → ProofLineItem → Str
unfolding text_bytes run_op
eval_item sha acc p = run_op sha p.op (text_bytes p.left ++ (acc ++ text_bytes p.right))

unfoldable pub eval : (Str → Str) → Str → List ProofLineItem → Str
unfolding eval_item
eval sha acc [] = acc
eval sha acc (p ∷ ps) = eval sha (eval_item sha acc p) ps

-- The items that the code makes of a step, `op` the name of the hash.
abbrev pub left_item : Str → ProofLineItem
left_item s = record { left = s; right = []; op = [] }

abbrev pub right_item : Str → ProofLineItem
right_item s = record { left = []; right = s; op = [] }

abbrev pub op_item : Str → ProofLineItem
op_item op = record { left = []; right = []; op = op }

-- The item of a step of a tree's proof, and the items of the whole proof.
abbrev pub item_of : ProofStep → ProofLineItem
item_of p = if p.left then left_item (hex_encode p.value) else right_item (hex_encode p.value)

unfoldable pub lines_of : Str → List ProofStep → List ProofLineItem
lines_of op [] = []
lines_of op (p ∷ ps) = item_of p ∷ op_item op ∷ lines_of op ps

pub text_bytes-hex_encode : (v : Str) → IsBytes v → text_bytes (hex_encode v) ≡ v
unfolding text_bytes
text_bytes-hex_encode v h = rw (hex_decode-hex_encode v h) refl

pub text_bytes-nil : text_bytes [] ≡ []
unfolding text_bytes hex_decode
text_bytes-nil = refl

-- A text that begins with "drand:" is no hexadecimal text.
pub text_bytes-drand : (d : Str) → text_bytes (str "drand:" ++ d) ≡ str "drand:" ++ d
unfolding text_bytes hex_decode
text_bytes-drand d = refl

module _ (sha : Str → Str) where
  pub eval-append :
      (acc : Str) (a b : List ProofLineItem) → eval sha acc (a ++ b) ≡ eval sha (eval sha acc a) b
  unfolding eval
  eval-append acc [] b = refl
  eval-append acc (p ∷ a) b = eval-append (eval_item sha acc p) a b

  pub eval_item-left : (acc t : Str) → eval_item sha acc (left_item t) ≡ text_bytes t ++ acc
  unfolding eval_item run_op str_eq
  eval_item-left acc t = rw text_bytes-nil (ap (λ x. text_bytes t ++ x) (append-nil acc))

  pub eval_item-right : (acc t : Str) → eval_item sha acc (right_item t) ≡ acc ++ text_bytes t
  unfolding eval_item run_op str_eq
  eval_item-right acc t = refl

  pub eval_item-op : (acc op : Str) → eval_item sha acc (op_item op) ≡ run_op sha op acc
  unfolding eval_item
  eval_item-op acc op = rw text_bytes-nil (ap (run_op sha op) (append-nil acc))

  step_lem :
      (acc op : Str) (p : ProofStep)
      → IsBytes p.value
      → eval_item sha (eval_item sha acc (item_of p)) (op_item op) ≡ join (run_op sha op) acc p
  step_lem acc op p h = elim (Bool-cases p.left) [
    | inl e ↦ rw e (
        eval_item-op _ op
        ∙ ap (run_op sha op) (
            eval_item-left acc (hex_encode p.value)
            ∙ ap (λ v. v ++ acc) (text_bytes-hex_encode p.value h)))
    | inr e ↦ rw e (
        eval_item-op _ op
        ∙ ap (run_op sha op) (
            eval_item-right acc (hex_encode p.value)
            ∙ ap (λ v. acc ++ v) (text_bytes-hex_encode p.value h)))
  ]

  -- The items of a proof compute what the proof leads to.
  pub eval-lines_of :
      (op acc : Str) (ps : List ProofStep)
      → Each (λ p. IsBytes p.value) ps
      → eval sha acc (lines_of op ps) ≡ climb (run_op sha op) acc ps
  unfolding eval lines_of
  eval-lines_of op acc [] h = refl
  eval-lines_of op acc (p ∷ ps) (h, hs) =
      ap (λ x. eval sha x (lines_of op ps)) (step_lem acc op p h)
      ∙ eval-lines_of op (join (run_op sha op) acc p) ps hs

  pub run_op-sha : run_op sha (str "sha-256") ≡ sha
  unfolding run_op str_eq
  run_op-sha = refl

  pub run_op-sha_twice : run_op sha (str "sha-256-x2") ≡ (λ s. sha (sha s))
  unfolding run_op str_eq
  run_op-sha_twice = refl
